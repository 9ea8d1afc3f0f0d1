-- ===== src/Connection/Channels/Added.antt =====
-- A channel that is added to a connection (rabbitpy/connection.py).
use rabbitpy.Prelude.{
  ℕ, suc, ◌≡◌, refl, Bool, false, String, none, some, List, [], ◌∷◌, ◌++◌, lookup,
}
use rabbitpy.Exceptions.{attribute_error}
use rabbitpy.Action.{return, raise}
use rabbitpy.Stateful
use rabbitpy.Stateful.{is_closed}
use rabbitpy.Frame.{Frame, FrameClass, Pamqp, Value}
use rabbitpy.Channel.{Channel, Tick}
use rabbitpy.Channel.Wait.Answer.{arrives}
use rabbitpy.Channel.Api.Lifecycle.{Answered, opened, open_channel-answered}
use rabbitpy.Channel0.{Channel0}
use rabbitpy.Connection.{get_next_channel_id}
use rabbitpy.Connection.State.{Connection, lend, take_back}
use rabbitpy.Connection.Channels.{
  capabilities, capabilities_in, channel, channel_ids, new_channel, add_and_open, open_new,
  numbered,
}

-- The channel that is added, once it is open.
abbrev pub own_channel :
    (pamqp : Pamqp) (rounds : ℕ)
    → Answered pamqp
    → (capabilities : List (String × Bool)) (blocking_read : Bool) (later : List Tick) (id : ℕ)
    → Connection
    → Channel
own_channel pamqp rounds a capabilities blocking_read later id s = opened pamqp rounds a later (
    lend s (
      new_channel blocking_read (arrives (Frame.bare FrameClass.channel_open_ok ∷ []) ∷ later)
        capabilities id s))

pub channel-answered :
    (table_of : Value → List (String × Bool)) (blocking_read : Bool) (pamqp : Pamqp) (rounds : ℕ)
    (a : Answered pamqp) (s : Connection) (c : Channel0) (properties : List (String × Value))
    (id : ℕ) (later : List Tick)
    → s.exceptions ≡ []
    → is_closed s.state ≡ false
    → s.channel0 ≡ some c
    → c.properties ≡ some properties
    → get_next_channel_id c.max_channels (channel_ids s.channels) ≡ return id
    → let d =
        own_channel pamqp rounds a (capabilities_in table_of properties) blocking_read later id s in
      channel blocking_read
        (arrives (Frame.bare FrameClass.channel_open_ok ∷ []) ∷ later)
        pamqp
        (suc rounds)
        table_of
        s
      ≡ (return id, take_back d (record s { channels = s.channels ++ (id, d) ∷ [] }))
unfolding channel open_new add_and_open numbered new_channel lend capabilities
channel-answered table_of blocking_read pamqp rounds a s c properties id later e o z p n =
    let ticks : List Tick = arrives (Frame.bare FrameClass.channel_open_ok ∷ []) ∷ later in
    let d : Channel = new_channel blocking_read ticks (capabilities_in table_of properties) id s in
    rw
      (
        z,
        n,
        p,
        open_channel-answered pamqp rounds a d later
            (record { exceptions = e; interrupt = refl; connected = o; queue = refl }) refl,
      )
      refl

-- A connection that is not closed, on which nothing is wrong and whose server has named its
-- properties, asked for a channel whose number is free, and whose server answers Channel.Open: the
-- number is returned, an open channel stands under it behind the others with the capabilities that
-- the server's properties list (none if they do not), and Channel.Open is the one frame that was
-- queued, under this number.
pub channel-opens :
    (table_of : Value → List (String × Bool)) (blocking_read : Bool) (pamqp : Pamqp) (rounds : ℕ)
    (s : Connection) (c : Channel0) (properties : List (String × Value)) (id : ℕ)
    (later : List Tick)
    → Answered pamqp
    → s.exceptions ≡ []
    → is_closed s.state ≡ false
    → s.channel0 ≡ some c
    → c.properties ≡ some properties
    → get_next_channel_id c.max_channels (channel_ids s.channels) ≡ return id
    → let ticks = arrives (Frame.bare FrameClass.channel_open_ok ∷ []) ∷ later in
      let r = channel blocking_read ticks pamqp (suc rounds) table_of s in
      (r.0 ≡ return id)
      × ((d : Channel) × (r.1.channels ≡ s.channels ++ (id, d) ∷ [])
          × (d.channel_id ≡ id)
          × (d.state ≡ Stateful.open_state)
          × (d.capabilities ≡ elim (lookup "capabilities" properties) [
            | none ↦ []
            | some value ↦ table_of value
          ]))
      × (r.1.write_queue ≡ s.write_queue ++ (id, Frame.bare FrameClass.channel_open) ∷ [])
unfolding lend take_back new_channel capabilities_in
channel-opens table_of blocking_read pamqp rounds s c properties id later a e o z p n =
    rw (channel-answered table_of blocking_read pamqp rounds a s c properties id later e o z p n)
      (refl, (_, refl, refl, refl, refl), refl)

-- Before the negotiation the server's properties are not known, and a channel cannot be made: the
-- connection is left as it is, without the number being taken.
channel-not_negotiated :
    (table_of : Value → List (String × Bool)) (blocking_read : Bool) (pamqp : Pamqp) (rounds : ℕ)
    (s : Connection) (c : Channel0) (id : ℕ) (ticks : List Tick)
    → s.channel0 ≡ some c
    → c.properties ≡ none
    → get_next_channel_id c.max_channels (channel_ids s.channels) ≡ return id
    → channel blocking_read ticks pamqp rounds table_of s ≡ (raise attribute_error, s)
unfolding channel open_new capabilities
channel-not_negotiated table_of blocking_read pamqp rounds s c id ticks z p n = rw (z, n, p) refl
