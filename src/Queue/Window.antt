-- ===== src/Queue/Window.antt =====
-- The slots from the tail up to the head, as the queue that they hold.
use order_matching_machine.Prelude.{
  ℕ, zero, suc, ◌+◌, ◌-◌, ◌%◌, ◌≤◌, ◌<◌, ◌≡◌, ◌≢◌, ◌⊎◌, refl, ap, ◌∙◌, sym, Bool-cases, inl, inr,
  List, [], ◌∷◌, ◌++◌, some, arith, length, get_elem?, set, ◌==◌, leb, if◌then◌else◌,
}
use native.Mathlib.Nat.{mod_self, mod-eq_of_lt}
use order_matching_machine.Queue.Spsc.{next_slot}

-- One slot on, or around the end.
pub next_slot-cases :
    (n i : ℕ) → i ≤ n → ((i < n) × (next_slot n i ≡ suc i)) ⊎ ((i ≡ n) × (next_slot n i ≡ 0))
next_slot-cases n i h = elim (Bool-cases (i == n)) [
  | inl e ↦
      let last : i + 1 ≡ suc n = ground arith in
      inr (ground arith, ap (λ k. k % suc n) last ∙ mod_self (suc n))
  | inr e ↦ inl (ground arith, mod-eq_of_lt {n = i + 1} {m = suc n} (ground arith) ∙ omega arith)
]

pub next_slot-le : (n i : ℕ) → i ≤ n → next_slot n i ≤ n
next_slot-le n i h = elim (next_slot-cases n i h) [
  | inl c ↦ omega (arith, c.0, c.1)
  | inr c ↦ omega (arith, c.0, c.1)
]

pub next_slot-injective : (n i j : ℕ) → i ≤ n → j ≤ n → i ≢ j → next_slot n i ≢ next_slot n j
next_slot-injective n i j h k ne = elim (next_slot-cases n i h) [
  | inl c ↦ elim (next_slot-cases n j k) [
    | inl d ↦ omega (arith, c.1, d.1, ne)
    | inr d ↦ omega (arith, c.1, d.1, ne)
  ]
  | inr c ↦ elim (next_slot-cases n j k) [
    | inl d ↦ omega (arith, c.1, d.1, ne)
    | inr d ↦ omega (arith, c.0, d.0, ne)
  ]
]

-- How many slots lie from `t` up to `h`.
abbrev pub distance : ℕ → ℕ → ℕ → ℕ
distance n t h = if leb t h then h - t else h + suc n - t

pub distance-next_slot :
    (n t h : ℕ) → t ≤ n → h ≤ n → t ≢ h → distance n t h ≡ suc (distance n (next_slot n t) h)
distance-next_slot n t h a b ne = elim (next_slot-cases n t a) [
  | inl c ↦ rw (c.1) (ground (arith, c.0, ne))
  | inr c ↦ rw (c.1) (ground (arith, c.0, ne))
]

-- The next slot is the tail just when every slot but one is taken.
pub distance-full : (n t h : ℕ) → t ≤ n → h ≤ n → (next_slot n h == t) ≡ (distance n t h == n)
distance-full n t h a b = elim (next_slot-cases n h b) [
  | inl c ↦ rw (c.1) (ground (arith, c.0))
  | inr c ↦ rw (c.1) (ground (arith, c.0))
]

module _ {ℓ} {A : Type ℓ} where
  pub get_elem?-set_self :
      (xs : List A) (i : ℕ) (v : A) → i < length xs → get_elem? (set xs i v) i ≡ some v
  get_elem?-set_self [] i v h = absurd (omega arith)
  get_elem?-set_self (x ∷ xs) zero v h = refl
  get_elem?-set_self (x ∷ xs) (suc i) v h = get_elem?-set_self xs i v (omega arith)

  pub get_elem?-set_other :
      (xs : List A) (i j : ℕ) (v : A) → i ≢ j → get_elem? (set xs i v) j ≡ get_elem? xs j
  get_elem?-set_other [] i j v h = refl
  get_elem?-set_other (x ∷ xs) zero zero v h = absurd (h refl)
  get_elem?-set_other (x ∷ xs) zero (suc j) v h = refl
  get_elem?-set_other (x ∷ xs) (suc i) zero v h = refl
  get_elem?-set_other (x ∷ xs) (suc i) (suc j) v h =
      get_elem?-set_other xs i j v (λ e. h (ap suc e))

module _ {A : Type 0} where
  -- From slot `t` up to the head the buffer holds the queue.
  abbrev pub Window : ℕ → List A → ℕ → ℕ → List A → Type 0
  Window n buf t h [] = t ≡ h
  Window n buf t h (x ∷ xs) =
      (t ≢ h) × (get_elem? buf t ≡ some x) × Window n buf (next_slot n t) h xs

  pub length-Window :
      (n t h : ℕ) (buf xs : List A)
      → t ≤ n
      → h ≤ n
      → Window n buf t h xs
      → length xs ≡ distance n t h
  length-Window n t h buf [] a b w = rw w (ground arith)
  length-Window n t h buf (x ∷ xs) a b w =
      ap suc (length-Window n (next_slot n t) h buf xs (next_slot-le n t a) b w.2)
      ∙ sym (distance-next_slot n t h a b w.0)

  -- A write at the head changes no slot of the window.
  pub Window-set :
      (n t h : ℕ) (buf xs : List A) (v : A) → Window n buf t h xs → Window n (set buf h v) t h xs
  Window-set n t h buf [] v w = w
  Window-set n t h buf (x ∷ xs) v w = (
    w.0,
    get_elem?-set_other buf h t v (λ e. w.0 (sym e)) ∙ w.1,
    Window-set n (next_slot n t) h buf xs v w.2,
  )

  -- The head moves on over the element that was written there.
  pub Window-push :
      (n t h : ℕ) (buf xs : List A) (v : A)
      → t ≤ n
      → h ≤ n
      → next_slot n h ≢ t
      → next_slot n h ≢ h
      → get_elem? buf h ≡ some v
      → Window n buf t h xs
      → Window n buf t (next_slot n h) (xs ++ v ∷ [])
  Window-push n t h buf [] v a b c d e w = (λ k. c (sym k), rw w e, ap (next_slot n) w)
  Window-push n t h buf (x ∷ xs) v a b c d e w = (
    λ k. c (sym k),
    w.1,
    Window-push n (next_slot n t) h buf xs v (next_slot-le n t a) b
        (λ k. next_slot-injective n h t b a (λ m. w.0 (sym m)) k) d e w.2,
  )

  pub Window-written :
      (n t h : ℕ) (buf xs : List A) (v : A)
      → h < length buf
      → Window n buf t h xs
      → Window n (set buf h v) t h xs × (get_elem? (set buf h v) h ≡ some v)
  Window-written n t h buf xs v b w = (Window-set n t h buf xs v w, get_elem?-set_self buf h v b)

pub next_slot-moves : (n h : ℕ) → 0 < n → h ≤ n → next_slot n h ≢ h
next_slot-moves n h p b = elim (next_slot-cases n h b) [
  | inl c ↦ omega (arith, c.1)
  | inr c ↦ omega (arith, c.0, c.1)
]
