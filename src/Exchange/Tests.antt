-- ===== src/Exchange/Tests.antt =====
-- A run of the commands on an exchange (rabbitpy/exchange.py).
use rabbitpy.Prelude.{◌≡◌, refl, true, false, none, some, List, [], ◌∷◌, ◌++◌, map}
use rabbitpy.Action.{return}
use rabbitpy.Frame
use rabbitpy.Frame.{Frame, FrameClass, Pamqp}
use rabbitpy.Frame.Sample.{sample}
use rabbitpy.Channel.Sample.{open_channel}
use rabbitpy.Channel.Wait.{validate_frame_type}
use rabbitpy.Channel.Wait.Answer.{arrives}
use rabbitpy.Channel.Api.Commands.{IsAnswer}
use rabbitpy.Exchange.{Exchange, topic_exchange}
use rabbitpy.Exchange.Commands.{Operation, declares, binds, deletes, sends, run, run-sends}

abbrev operations : List Operation
operations = declares false ∷ binds "logs" (some "eu.*") ∷ deletes true ∷ []

abbrev answers : List Frame
answers =
    Frame.bare FrameClass.exchange_declare_ok
    ∷ Frame.bare FrameClass.exchange_bind_ok
    ∷ Frame.bare FrameClass.exchange_delete_ok
    ∷ []

abbrev events : Exchange
events =
    topic_exchange (open_channel 4 (map (λ f. arrives (f ∷ [])) answers)) "events" true false none

IsAnswer-declare :
    IsAnswer sample (sends (declares false) events) (Frame.bare FrameClass.exchange_declare_ok)
unfolding validate_frame_type Frame.class_of topic_exchange
IsAnswer-declare = record { waits = refl; plain = refl; fits = refl }

IsAnswer-bind :
    IsAnswer sample
      (sends (binds "logs" (some "eu.*")) events)
      (Frame.bare FrameClass.exchange_bind_ok)
unfolding validate_frame_type Frame.class_of topic_exchange
IsAnswer-bind = record { waits = refl; plain = refl; fits = refl }

IsAnswer-delete :
    IsAnswer sample (sends (deletes true) events) (Frame.bare FrameClass.exchange_delete_ok)
unfolding validate_frame_type Frame.class_of topic_exchange
IsAnswer-delete = record { waits = refl; plain = refl; fits = refl }

run-sends_example :
    let r = run sample 3 operations events in
    (r.0 ≡ return tt)
    × (r.1.channel.write_queue
        ≡ events.channel.write_queue
          ++ map (λ o. (events.channel.channel_id, sends o events)) operations)
unfolding topic_exchange
run-sends_example =
    run-sends sample 2 operations events
      (record { exceptions = refl; interrupt = refl; open_state = refl; connected = refl }) refl
      (
        Frame.bare FrameClass.exchange_declare_ok,
        _,
        refl,
        IsAnswer-declare,
        (
          Frame.bare FrameClass.exchange_bind_ok,
          _,
          refl,
          IsAnswer-bind,
          (Frame.bare FrameClass.exchange_delete_ok, _, refl, IsAnswer-delete, tt),
        ),
      )
