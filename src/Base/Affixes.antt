-- ===== src/Base/Affixes.antt =====
-- The beginnings and the ends of texts: `startsWith`, `endsWith`, `includes` and `slice` of
-- JavaScript.
use Prim.Native.Nat.{ℕ, zero, suc, ◌+◌, ◌-◌, ◌≤◌}
use mathlib.Core.Path.{◌≡◌, refl, sym, ap, ◌∙◌}
use mathlib.Core.Bool.{Bool, true, false, ◌||◌, ◌&&◌}
use mathlib.Core.List.{[], ◌∷◌, ◌++◌}
use native.Mathlib.Omega.{arith}
use wootty.Base.Tests.{Text, ◌==◌, leb, text_eq, text_eq_refl, text_eq_sound}
use wootty.Base.Lists.{length, take, drop, length-append}

-- `s.startsWith(prefix)`.
unfoldable pub starts_with : Text → Text → Bool
starts_with s [] = true
starts_with [] (d ∷ prefix) = false
starts_with (c ∷ s) (d ∷ prefix) = c == d && starts_with s prefix

-- `s.endsWith(suffix)`.
unfoldable pub ends_with : Text → Text → Bool
ends_with s suffix =
    leb (length suffix) (length s) && text_eq (drop (length s - length suffix) s) suffix

-- `s.includes(part)`.
unfoldable pub includes : Text → Text → Bool
includes [] part = starts_with [] part
includes (c ∷ s) part = starts_with (c ∷ s) part || includes s part

-- `s.slice(0, -n)`, for an n that is not 0.
unfoldable pub slice_end : ℕ → Text → Text
slice_end n s = take (length s - n) s

pub starts_with-append : (s t : Text) → starts_with (s ++ t) s ≡ true
unfolding starts_with
starts_with-append [] t = refl
starts_with-append (c ∷ s) t = ground (arith, starts_with-append s t)

take-drop : (n : ℕ) (s : Text) → take n s ++ drop n s ≡ s
take-drop zero s = refl
take-drop (suc n) [] = refl
take-drop (suc n) (c ∷ s) = ap (λ r. c ∷ r) (take-drop n s)

drop-length : (s t : Text) → drop (length s) (s ++ t) ≡ t
drop-length [] t = refl
drop-length (c ∷ s) t = drop-length s t

take-length : (s t : Text) → take (length s) (s ++ t) ≡ s
take-length [] t = refl
take-length (c ∷ s) t = ap (λ r. c ∷ r) (take-length s t)

length_difference : (s t : Text) → length (s ++ t) - length t ≡ length s
length_difference s t = omega (arith, length-append s t)

pub ends_with-append : (s t : Text) → ends_with (s ++ t) t ≡ true
unfolding ends_with
ends_with-append s t =
    let le : leb (length t) (length (s ++ t)) ≡ true = ground (arith, length-append s t) in
    rw (le, length_difference s t, drop-length s t) (text_eq_refl t)

pub slice_end-append : (s t : Text) → slice_end (length t) (s ++ t) ≡ s
unfolding slice_end
slice_end-append s t = rw (length_difference s t) (take-length s t)

-- A text with an ending is what `slice` leaves, and the ending.
pub slice_end-ends_with : (s t : Text) → ends_with s t ≡ true → slice_end (length t) s ++ t ≡ s
unfolding ends_with slice_end
slice_end-ends_with s t h =
    let n = length s - length t in
    let e : drop n s ≡ t = text_eq_sound (drop n s) t (ground (arith, h)) in
    ap (λ r. take n s ++ r) (sym e) ∙ take-drop n s

drop_past : (s t : Text) (k : ℕ) → drop (length s + k) (s ++ t) ≡ drop k t
drop_past [] t k = ap (λ n. drop n t) (omega arith)
drop_past (c ∷ s) t k =
    let e : suc (length s) + k ≡ suc (length s + k) = omega arith in
    ap (λ n. drop n (c ∷ (s ++ t))) e ∙ drop_past s t k

-- An ending is looked for in the last part, when that is long enough.
pub ends_with-last : (s t p : Text) → length p ≤ length t → ends_with (s ++ t) p ≡ ends_with t p
unfolding ends_with
ends_with-last s t p h =
    let e : length (s ++ t) - length p ≡ length s + (length t - length p) =
      omega (arith, length-append s t, h) in
    let here : leb (length p) (length (s ++ t)) ≡ true = ground (arith, length-append s t, h) in
    let there : leb (length p) (length t) ≡ true = ground (arith, h) in
    rw (here, there, e, drop_past s t (length t - length p)) refl

-- What a text starts with stands before the rest.
pub starts_with-split : (s p : Text) → starts_with s p ≡ true → (rest : Text) × (s ≡ p ++ rest)
unfolding starts_with
starts_with-split s [] h = (s, refl)
starts_with-split [] (d ∷ p) h = absurd (cc)
starts_with-split (c ∷ s) (d ∷ p) h =
    let (rest, e) = starts_with-split s p (ground (arith, h)) in
    let same : c ≡ d = ground (arith, h) in (rest, ap (λ x. x ∷ s) same ∙ ap (λ r. d ∷ r) e)
