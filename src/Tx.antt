-- ===== src/Tx.antt =====
-- rabbitpy/tx.py: transactions on a channel, as a context manager or by their methods. The
-- parameter `rounds` is that of the waits.
pub mod Context
mod Tests
use rabbitpy.Prelude.{ℕ, Bool, true, false, Option, none, some}
use rabbitpy.Exceptions.{Exception, channel_closed, no_active_transaction}
use rabbitpy.Action.{
  Action, Outcome, return, raise, blocked, no_fuel, pure, throw, gets, modify, when, zoom, ◌>>=◌,
  ◌>>◌,
}
use rabbitpy.Frame
use rabbitpy.Frame.{Frame, FrameClass, Pamqp, class_of}
use rabbitpy.Channel.{Channel}
use rabbitpy.Channel.Wait.{rpc}

pub record Tx : Type 0 where
  pub channel : Channel
  pub selected : Bool

abbrev pub on_channel : {A : Type 0} → Action Channel A → Action Tx A
on_channel = zoom (λ s. s.channel) (λ c s. record s { channel = c })

abbrev set_selected : Bool → Action Tx Unit
set_selected value = modify (λ s. record s { selected = value })

is_select_ok : Option FrameClass → Bool
is_select_ok (some FrameClass.tx_select_ok) = true
is_select_ok _ = false

is_commit_ok : Option FrameClass → Bool
is_commit_ok (some FrameClass.tx_commit_ok) = true
is_commit_ok _ = false

is_rollback_ok : Option FrameClass → Bool
is_rollback_ok (some FrameClass.tx_rollback_ok) = true
is_rollback_ok _ = false

response_class : Option Frame → Option FrameClass
response_class none = none
response_class (some response) = some (class_of response)

-- `except exceptions.ChannelClosedException`
no_active : {A : Type 0} → Outcome A → Outcome A
no_active (raise channel_closed) = raise no_active_transaction
no_active r = r

except_closed : {A : Type 0} → Action Tx A → Action Tx A
unfolding no_active
except_closed m s = (no_active (m s).0, (m s).1)

module _ (pamqp : Pamqp) (rounds : ℕ) where
  unfoldable pub select : Action Tx Bool
  unfolding is_select_ok response_class
  select = do
    response ← on_channel (rpc pamqp rounds (Frame.bare FrameClass.tx_select))
    set_selected (is_select_ok (response_class response))
    pure (is_select_ok (response_class response))

  unfoldable pub commit : Action Tx Bool
  unfolding except_closed is_commit_ok response_class
  commit = do
    response ← except_closed (on_channel (rpc pamqp rounds (Frame.bare FrameClass.tx_commit)))
    set_selected false
    pure (is_commit_ok (response_class response))

  unfoldable pub rollback : Action Tx Bool
  unfolding except_closed is_rollback_ok response_class
  rollback = do
    response ← except_closed (on_channel (rpc pamqp rounds (Frame.bare FrameClass.tx_rollback)))
    set_selected false
    pure (is_rollback_ok (response_class response))

  -- `__enter__`
  unfoldable pub enter : Action Tx Unit
  unfolding select
  enter = select >> pure tt

  if_selected : Action Tx Bool → Action Tx Unit
  if_selected m s = when s.selected (m >> pure tt) s

  -- `__exit__`, with the exception that leaves the context
  unfoldable pub exit : Option Exception → Action Tx Unit
  unfolding commit rollback if_selected
  exit (some exc_val) = if_selected rollback >> throw exc_val
  exit none = if_selected commit
