-- ===== src/Tx/Tests.antt =====
-- Transactions (rabbitpy/tx.py) that are committed and that are given up.
use rabbitpy.Prelude.{◌≡◌, refl, false, some, [], ◌∷◌}
use rabbitpy.Exceptions.{type_error, no_active_transaction}
use rabbitpy.Action.{raise}
use rabbitpy.Stateful
use rabbitpy.Frame
use rabbitpy.Frame.{Frame, FrameClass}
use rabbitpy.Frame.Sample.{sample}
use rabbitpy.Channel.Sample.{open_channel}
use rabbitpy.Channel.Wait.{validate_frame_type, rpc}
use rabbitpy.Channel.Wait.Order.{IsCalm}
use rabbitpy.Channel.Wait.Answer.{arrives}
use rabbitpy.Tx.{Tx, commit}
use rabbitpy.Tx.Context.{Answers, context, context_lem}

abbrev idle : Tx
idle = record {
  channel = open_channel 4 (
      arrives (Frame.bare FrameClass.tx_select_ok ∷ [])
      ∷ arrives (Frame.bare FrameClass.tx_rollback_ok ∷ [])
      ∷ []);
  selected = false;
}

Answers-select : Answers sample FrameClass.tx_select FrameClass.tx_select_ok
unfolding validate_frame_type Frame.class_of
Answers-select = record { waits = refl; fits = refl }

Answers-rollback : Answers sample FrameClass.tx_rollback FrameClass.tx_rollback_ok
unfolding validate_frame_type Frame.class_of
Answers-rollback = record { waits = refl; fits = refl }

calm : IsCalm idle.channel
calm = record { exceptions = refl; interrupt = refl; open_state = refl; connected = refl }

context_lem_example :
    ((context sample 3 (Frame.header 0 [] ∷ []) (some type_error) idle).0 ≡ raise type_error)
    × ((context sample 3 (Frame.header 0 [] ∷ []) (some type_error) idle).1.channel.write_queue
        ≡ (1, Frame.bare FrameClass.tx_select)
          ∷ (1, Frame.header 0 [])
          ∷ (1, Frame.bare FrameClass.tx_rollback)
          ∷ [])
    × ((context sample 3 (Frame.header 0 [] ∷ []) (some type_error) idle).1.selected ≡ false)
context_lem_example =
    context_lem sample 3 (Frame.header 0 [] ∷ []) (some type_error) idle [] Answers-select
      Answers-rollback calm refl refl

-- On a closed channel there is no transaction to commit.
run_closed :
    (commit sample 3
      (record idle { channel = record idle.channel { state = Stateful.closed_state } })).0
    ≡ raise no_active_transaction
unfolding commit rpc
run_closed = refl
