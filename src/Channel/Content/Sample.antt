-- ===== src/Channel/Content/Sample.antt =====
-- The content frames of pamqp's classes in the tests.
use rabbitpy.Prelude.{ℕ, ◌<◌, ◌≡◌, refl, true, List, [], ◌∷◌, arith, length}
use rabbitpy.Frame
use rabbitpy.Frame.{Frame}
use rabbitpy.Frame.Sample.{sample}
use rabbitpy.Channel.Wait.{validate_frame_type}
use rabbitpy.Channel.Content.Whole.{IsContent}

positive_holds : (v : List ℕ) → 0 < length v → sample.truthy (Frame.body v) ≡ true
positive_holds [] h = absurd (omega arith)
positive_holds (x ∷ v) h = refl

pub IsContent-sample : IsContent sample
unfolding validate_frame_type Frame.class_of
IsContent-sample = record {
  header_fits = λ n p. refl;
  body_fits = λ v. refl;
  header_holds = λ n p. refl;
  body_holds = positive_holds;
}
