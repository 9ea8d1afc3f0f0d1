-- ===== src/Heartbeat/Tests.antt =====
-- A run of the heartbeat checker (rabbitpy/heartbeat.py).
use rabbitpy.Prelude.{◌≡◌, refl, true, [], ◌∷◌, ◌++◌, map}
use rabbitpy.Action.{return, ◌>>◌}
use rabbitpy.Channel.Sample.{open_channel}
use rabbitpy.Heartbeat.{heartbeat, start, periods}
use rabbitpy.Heartbeat.Beats.{beats, periods-beats}

periods-beats_example :
    let r = (start >> periods (12 ∷ 0 ∷ 0 ∷ 7 ∷ [])) (heartbeat (open_channel 4 []) 100 60) in
    (r.0 ≡ return tt)
    × (r.1.timer ≡ true)
    × (r.1.channel0.write_queue ≡ [] ++ map (λ f. (1, f)) (beats (12 ∷ 0 ∷ 0 ∷ 7 ∷ [])))
periods-beats_example =
    periods-beats (open_channel 4 []) 100 60 (12 ∷ 0 ∷ 0 ∷ 7 ∷ [])
      (record { exceptions = refl; connected = refl; open_state = refl }) (λ e. cc)
