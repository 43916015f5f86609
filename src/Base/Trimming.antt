-- ===== src/Base/Trimming.antt =====
-- What `trim` takes off around a block without spaces.
use mathlib.Core.Path.{◌≡◌, refl, sym, ap, ◌∙◌, subst}
use mathlib.Core.Logic.{◌≢◌, inl, inr}
use mathlib.Core.Bool.{false}
use mathlib.Core.List.{
  List, [], ◌∷◌, ◌++◌, reverse, reverse-append, reverse-cons, reverse-reverse, append_assoc,
}
use wootty.Base.Tests.{Text, Bool-cases}
use wootty.Base.Texts.{is_space, trim, trim_start}
use wootty.Base.Predicates.{All, All-append}

pub All-reverse {κ} : {A : Type 0} (P : A → Type κ) (xs : List A) → All P xs → All P (reverse xs)
All-reverse P [] h = tt
All-reverse P (x ∷ xs) h =
    subst (All P) (sym (reverse-cons x xs))
      (All-append P (reverse xs) (x ∷ []) (All-reverse P xs h.1) (h.0, tt))

-- A text with something in it and no space.
abbrev pub Solid : Text → Type 0
Solid v = (v ≢ []) × All (λ c. is_space c ≡ false) v

reverse-Solid : (v : Text) → Solid v → Solid (reverse v)
reverse-Solid v (some_, solid) = (
  λ e. some_ (sym (reverse-reverse v) ∙ ap reverse e),
  All-reverse (λ c. is_space c ≡ false) v solid,
)

trim_start-Solid : (a v x : Text) → Solid v → trim_start ((a ++ v) ++ x) ≡ (trim_start a ++ v) ++ x
unfolding trim_start
trim_start-Solid [] [] x h = absurd (h.0 refl)
trim_start-Solid [] (c ∷ v) x h = rw (h.1.0) refl
trim_start-Solid (c ∷ a) v x h = elim (Bool-cases (is_space c)) [
  | inl e ↦ rw e (trim_start-Solid a v x h)
  | inr e ↦ rw e refl
]

abbrev pub trim_end : Text → Text
trim_end b = reverse (trim_start (reverse b))

pub trim-Solid : (a v b : Text) → Solid v → trim ((a ++ v) ++ b) ≡ trim_start a ++ (v ++ trim_end b)
unfolding trim
trim-Solid a v b h =
    let rb = reverse b in
    let ra = trim_start a in
    let rv = reverse v in
    ap (λ s. reverse (trim_start (reverse s))) (trim_start-Solid a v b h)
    ∙ ap (λ s. reverse (trim_start s))
        (reverse-append (ra ++ v) b
          ∙ ap (λ s. rb ++ s) (reverse-append ra v)
          ∙ sym (append_assoc rb rv (reverse ra)))
    ∙ ap reverse (trim_start-Solid rb rv (reverse ra) (reverse-Solid v h))
    ∙ reverse-append (trim_start rb ++ rv) (reverse ra)
    ∙ rw (reverse-append (trim_start rb) rv, reverse-reverse ra, reverse-reverse v) refl
