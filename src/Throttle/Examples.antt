-- ===== src/Throttle/Examples.antt =====
-- The throttle on concrete times.
use wootty.Base.{◌≡◌, refl, [], ◌∷◌, none, codes, text_eq}
use wootty.Throttle.{register_failure_notice}
use wootty.Throttle.Spacing.{notified, Spaced, notified-Spaced}

-- Of five failures, two are announced.
announces :
    notified (codes "k") 15_000 none (1_000 ∷ 2_000 ∷ 9_000 ∷ 16_000 ∷ 20_000 ∷ [])
    ≡ 1_000 ∷ 16_000 ∷ []
unfolding notified register_failure_notice text_eq
announces = refl

notified-Spaced_example :
    Spaced (codes "k") 15_000 (notified (codes "k") 15_000 none (1_000 ∷ 2_000 ∷ 16_000 ∷ []))
notified-Spaced_example = notified-Spaced (codes "k") 15_000 none (1_000 ∷ 2_000 ∷ 16_000 ∷ [])
