-- ===== src/Adapters/Laws.antt =====
-- Lists of wrappers: found and deleted by listener in the transport, by wrapper in the socket.
use wootty.Base.{
  ℕ, suc, Bool, true, false, List, [], ◌∷◌, ◌++◌, Option, none, some, ◌==◌, if◌then◌else◌, All, map,
  All-append, ◌≡◌, refl, ◌<◌, arith, Bool-cases, inl, inr, ap, subst,
}
use wootty.Adapters.{Wrapped, find_wrapped, delete_listener}

-- Wrappers in the order of their making, all of them made before a point.
abbrev pub Ascending : List Wrapped → ℕ → Type 0
Ascending [] n = Unit
Ascending (w ∷ ws) n =
    (w.wrapper < n) × All (λ (v : Wrapped). w.wrapper < v.wrapper) ws × Ascending ws n

-- `removeEventListener` on the list of a type.
unfoldable pub without_wrapper : ℕ → List Wrapped → List Wrapped
without_wrapper n [] = []
without_wrapper n (w ∷ ws) =
    let rest = without_wrapper n ws in if w.wrapper == n then ws else w ∷ rest

-- What is subscribed, as a list of listeners: one is added at the end unless it is there, and
-- removed.
abbrev pub listed : ℕ → List ℕ → Bool
listed l [] = false
listed l (k ∷ ks) = if k == l then true else listed l ks

abbrev pub subscribe : ℕ → List ℕ → List ℕ
subscribe l ks = if listed l ks then ks else ks ++ l ∷ []

abbrev pub unsubscribe : ℕ → List ℕ → List ℕ
unsubscribe l [] = []
unsubscribe l (k ∷ ks) = if k == l then ks else k ∷ unsubscribe l ks

abbrev pub listeners : List Wrapped → List ℕ
listeners ws = map (λ (w : Wrapped). w.listener) ws

pub listed-none :
    (l : ℕ) (ws : List Wrapped) → find_wrapped l ws ≡ none → listed l (listeners ws) ≡ false
unfolding find_wrapped
listed-none l [] h = refl
listed-none l (w ∷ ws) h = elim (Bool-cases (w.listener == l)) [
  | inl e ↦ absurd (cc (h, ap (λ (b : Bool). if b then some w else find_wrapped l ws) e))
  | inr e ↦ rw e (
      listed-none l ws (subst (λ (b : Bool). (if b then some w else find_wrapped l ws) ≡ none) e h))
]

pub listed-some :
    (l : ℕ) (ws : List Wrapped) (w : Wrapped)
    → find_wrapped l ws ≡ some w
    → listed l (listeners ws) ≡ true
unfolding find_wrapped
listed-some l [] w h = absurd (cc)
listed-some l (v ∷ ws) w h = elim (Bool-cases (v.listener == l)) [
  | inl e ↦ rw e refl
  | inr e ↦ rw e (
      listed-some l ws w
        (subst (λ (b : Bool). (if b then some v else find_wrapped l ws) ≡ some w) e h))
]

pub listeners-delete_listener :
    (l : ℕ) (ws : List Wrapped) → listeners (delete_listener l ws) ≡ unsubscribe l (listeners ws)
unfolding delete_listener
listeners-delete_listener l [] = refl
listeners-delete_listener l (w ∷ ws) = elim (Bool-cases (w.listener == l)) [
  | inl e ↦ rw e refl
  | inr e ↦ rw e (ap (λ ks. w.listener ∷ ks) (listeners-delete_listener l ws))
]

-- A nonempty option is its content.
found :
    (v : Wrapped) (P : Wrapped → Type 0) (o : Option Wrapped) (w : Wrapped)
    → o ≡ some v
    → o ≡ some w
    → P v
    → P w
found v P o w e h p = subst P (ground (arith, e, h)) p

find_wrapped-All :
    (P : Wrapped → Type 0) (l : ℕ) (ws : List Wrapped) (w : Wrapped)
    → All P ws
    → find_wrapped l ws ≡ some w
    → P w
unfolding find_wrapped
find_wrapped-All P l [] w a h = absurd (cc)
find_wrapped-All P l (v ∷ ws) w a h = elim (Bool-cases (v.listener == l)) [
  | inl e ↦ found v P (find_wrapped l (v ∷ ws)) w (rw e refl) h a.0
  | inr e ↦
      find_wrapped-All P l ws w a.1
        (subst (λ (b : Bool). (if b then some v else find_wrapped l ws) ≡ some w) e h)
]

-- The socket removes the wrapper that the transport deletes.
pub without_wrapper-delete_listener :
    (l : ℕ) (ws : List Wrapped) (w : Wrapped) (n : ℕ)
    → Ascending ws n
    → find_wrapped l ws ≡ some w
    → without_wrapper w.wrapper ws ≡ delete_listener l ws
unfolding find_wrapped without_wrapper delete_listener
without_wrapper-delete_listener l [] w n a h = refl
without_wrapper-delete_listener l (v ∷ ws) w n a h = elim (Bool-cases (v.listener == l)) [
  | inl e ↦
      let same : v.wrapper ≡ w.wrapper =
        found v (λ (u : Wrapped). v.wrapper ≡ u.wrapper) (find_wrapped l (v ∷ ws)) w (rw e refl) h
          refl in
      let here : (v.wrapper == w.wrapper) ≡ true = ground (arith, same) in rw (e, here) refl
  | inr e ↦
      let h' : find_wrapped l ws ≡ some w =
        subst (λ (b : Bool). (if b then some v else find_wrapped l ws) ≡ some w) e h in
      let later : v.wrapper < w.wrapper =
        find_wrapped-All (λ (u : Wrapped). v.wrapper < u.wrapper) l ws w a.1 h' in
      let elsewhere : (v.wrapper == w.wrapper) ≡ false = ground (arith, later) in
      rw (e, elsewhere) (ap (λ us. v ∷ us) (without_wrapper-delete_listener l ws w n a.2 h'))
]

delete_listener-All :
    (P : Wrapped → Type 0) (l : ℕ) (ws : List Wrapped) → All P ws → All P (delete_listener l ws)
unfolding delete_listener
delete_listener-All P l [] a = tt
delete_listener-All P l (w ∷ ws) a = elim (Bool-cases (w.listener == l)) [
  | inl e ↦ rw e a.1
  | inr e ↦ rw e (a.0, delete_listener-All P l ws a.1)
]

pub delete_listener-Ascending :
    (l : ℕ) (ws : List Wrapped) (n : ℕ) → Ascending ws n → Ascending (delete_listener l ws) n
unfolding delete_listener
delete_listener-Ascending l [] n a = tt
delete_listener-Ascending l (w ∷ ws) n a = elim (Bool-cases (w.listener == l)) [
  | inl e ↦ rw e a.2
  | inr e ↦ rw e (
    a.0,
    delete_listener-All (λ (v : Wrapped). w.wrapper < v.wrapper) l ws a.1,
    delete_listener-Ascending l ws n a.2,
  )
]

pub append-Ascending :
    (ws : List Wrapped) (n l : ℕ)
    → Ascending ws n
    → Ascending (ws ++ record { wrapper = n; listener = l } ∷ []) (suc n)
append-Ascending [] n l a = (omega arith, tt, tt)
append-Ascending (w ∷ ws) n l a = (
  omega (arith, a.0),
  All-append (λ (v : Wrapped). w.wrapper < v.wrapper) ws _ a.1 (a.0, tt),
  append-Ascending ws n l a.2,
)

pub later-Ascending : (ws : List Wrapped) (n : ℕ) → Ascending ws n → Ascending ws (suc n)
later-Ascending [] n a = tt
later-Ascending (w ∷ ws) n a = (omega (arith, a.0), a.1, later-Ascending ws n a.2)

pub wrappers_are_new :
    (ws : List Wrapped) (n : ℕ)
    → Ascending ws n
    → All (λ (w : Wrapped). (w.wrapper == n) ≡ false) ws
wrappers_are_new [] n a = tt
wrappers_are_new (w ∷ ws) n a = (ground (arith, a.0), wrappers_are_new ws n a.2)

pub listeners-append :
    (ws : List Wrapped) (w : Wrapped) → listeners (ws ++ w ∷ []) ≡ listeners ws ++ w.listener ∷ []
listeners-append [] w = refl
listeners-append (v ∷ ws) w = ap (λ ks. v.listener ∷ ks) (listeners-append ws w)
