-- ===== src/FontSize/Bounds.antt =====
-- The size of the font lies within its bounds, and is read back as it was written.
use wootty.Base.{
  ℕ, zero, suc, ◌+◌, ◌-◌, ◌≤◌, ◌≡◌, refl, subst, ap, ◌∙◌, [], ◌∷◌, Option, none, some, Text,
  decimal, trim, Bool-cases, arith, inl, inr,
}
use wootty.Persistence.{read, Tried, threw, returned, StorageApi}
use wootty.Persistence.Laws.{IsLawful}
use wootty.FontSize.{
  font_size_key, clamp_font_size, with_storage_error_handling, is_whole, digits_from, is_finite,
  size_of_text, size_of_raw, read_initial_font_size, write_font_size_preference, written,
}

abbrev pub InBounds : ℕ → Type 0
InBounds n = (11 ≤ n) × (n ≤ 22)

clamp_font_size-InBounds : (n : ℕ) → InBounds (clamp_font_size n)
unfolding clamp_font_size
clamp_font_size-InBounds n = omega arith

size_of_text-InBounds : (t : Text) → InBounds (size_of_text t).0
size_of_text-InBounds t = elim (Bool-cases (is_whole t)) [
  | inr e ↦ rw e (omega arith)
  | inl e ↦ elim (Bool-cases (is_finite (digits_from 0 t))) [
    | inl f ↦ rw (e, f) (clamp_font_size-InBounds (digits_from 0 t))
    | inr f ↦ rw (e, f) (omega arith)
  ]
]

-- Whatever the storage holds or throws, the size that the page begins with is from 11 to 22.
read_initial_font_size-InBounds :
    {St : Type 0} (api : StorageApi St) (o : Option St) → InBounds (read_initial_font_size api o).0
unfolding read_initial_font_size
read_initial_font_size-InBounds api none = omega arith
read_initial_font_size-InBounds api (some st) = go (api.get_item font_size_key st)
  where
    go :
        (r : Tried (Option Text))
        → InBounds (size_of_raw (with_storage_error_handling read font_size_key r)).0
    go threw = omega arith
    go (returned none) = omega arith
    go (returned (some [])) = omega arith
    go (returned (some (c ∷ raw))) = size_of_text-InBounds (trim (c ∷ raw))

abbrev IsReadBack : ℕ → Type 0
IsReadBack n = size_of_raw (some (some (decimal n)), none) ≡ (n, none)

-- The twelve sizes, from the smallest on.
sizes-IsReadBack : (k : ℕ) → k ≤ 11 → IsReadBack (11 + k)
unfolding decimal trim clamp_font_size
sizes-IsReadBack zero h = refl
sizes-IsReadBack (suc zero) h = refl
sizes-IsReadBack (suc (suc zero)) h = refl
sizes-IsReadBack (suc (suc (suc zero))) h = refl
sizes-IsReadBack (suc (suc (suc (suc zero)))) h = refl
sizes-IsReadBack (suc (suc (suc (suc (suc zero))))) h = refl
sizes-IsReadBack (suc (suc (suc (suc (suc (suc zero)))))) h = refl
sizes-IsReadBack (suc (suc (suc (suc (suc (suc (suc zero))))))) h = refl
sizes-IsReadBack (suc (suc (suc (suc (suc (suc (suc (suc zero)))))))) h = refl
sizes-IsReadBack (suc (suc (suc (suc (suc (suc (suc (suc (suc zero))))))))) h = refl
sizes-IsReadBack (suc (suc (suc (suc (suc (suc (suc (suc (suc (suc zero)))))))))) h = refl
sizes-IsReadBack (suc (suc (suc (suc (suc (suc (suc (suc (suc (suc (suc zero))))))))))) h = refl
sizes-IsReadBack (suc (suc (suc (suc (suc (suc (suc (suc (suc (suc (suc (suc k)))))))))))) h =
    absurd (omega arith)

clamped-IsReadBack : (n : ℕ) → InBounds n → IsReadBack n
clamped-IsReadBack n h =
    let e : 11 + (n - 11) ≡ n = omega arith in
    subst IsReadBack e (sizes-IsReadBack (n - 11) (omega arith))

-- In a storage that behaves as `Storage` does: a size that is written without a failure is read back
-- as the size within the bounds that is nearest to it.
read-write_font_size :
    {St : Type 0} (api : StorageApi St) (lawful : IsLawful api) (st : St) (size : ℕ)
    → (write_font_size_preference api (some st) size).1 ≡ none
    → read_initial_font_size api (write_font_size_preference api (some st) size).0
      ≡ (clamp_font_size size, none)
unfolding write_font_size_preference read_initial_font_size
read-write_font_size {St = St} api lawful st size quiet =
    go (api.set_item font_size_key (decimal (clamp_font_size size)) st) refl
  where
    text : Text
    text = decimal (clamp_font_size size)

    go :
        (r : Tried St)
        → api.set_item font_size_key text st ≡ r
        → read_initial_font_size api (write_font_size_preference api (some st) size).0
          ≡ (clamp_font_size size, none)
    go threw e = absurd (cc (quiet, e))
    go (returned st') e =
        ap (λ r. read_initial_font_size api (some (written api r st).0)) e
        ∙ ap (λ r. size_of_raw (with_storage_error_handling read font_size_key r))
            (lawful.found font_size_key text st st' e)
        ∙ clamped-IsReadBack (clamp_font_size size) (clamp_font_size-InBounds size)
