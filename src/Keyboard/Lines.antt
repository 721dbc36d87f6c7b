-- ===== src/Keyboard/Lines.antt =====
-- What the keyboard driver does to the table of handlers, and how often it reads a key.
use svetos_kernel.Base.{
  ℕ, zero, suc, ◌+◌, ◌-◌, ◌++◌, ◌≡◌, ◌≢◌, refl, false, none, some, List, [], ◌∷◌, ◌==◌, ◌∙◌, set,
  get_or, length, bit_and, length-set, get_or-set_self, get_or-set_ne, arith,
}
use svetos_kernel.Ports.{Ports}
use svetos_kernel.Keyboard.{
  Handlers, keyboard_data_port, keyboard_status_port, keyboard_handler, keyboard_init,
  keyboard_exit,
}

-- A controller with keys that wait to be read: it says so by bit 0 of its status, and hands them
-- out in order at its data port.
pub record Keys (P : Ports) : Type 1 where
  pub Waiting : List ℕ → P.State → Type 0
  pub quiet :
      (s : P.State)
      → Waiting [] s
      → (bit_and (P.inb keyboard_status_port s).0 1 ≡ 0)
        × Waiting [] (P.inb keyboard_status_port s).1
  pub pressed :
      (k : ℕ) (ks : List ℕ) (s : P.State)
      → Waiting (k ∷ ks) s
      → (bit_and (P.inb keyboard_status_port s).0 1 ≢ 0)
        × Waiting (k ∷ ks) (P.inb keyboard_status_port s).1
  pub key :
      (k : ℕ) (ks : List ℕ) (s : P.State)
      → Waiting (k ∷ ks) s
      → ((P.inb keyboard_data_port s).0 ≡ k) × Waiting ks (P.inb keyboard_data_port s).1

-- `n` interrupts of the keyboard, with what they print
abbrev pub interrupts : (P : Ports) → ℕ → P.State → List ℕ × P.State
interrupts P zero s = ([], s)
interrupts P (suc n) s =
    let (codes, s') = keyboard_handler P s in
    let (rest, s'') = interrupts P n s' in (codes ++ rest, s'')

module _ (P : Ports) (K : Keys P) where
  one_key :
      (k : ℕ) (ks : List ℕ) (s : P.State)
      → K.Waiting (k ∷ ks) s
      → (t : P.State) × (keyboard_handler P s ≡ (k ∷ [], t)) × K.Waiting ks t
  unfolding keyboard_handler
  one_key k ks s w =
      let (flag, w') = K.pressed k ks s w in
      let (here, w'') = K.key k ks (P.inb keyboard_status_port s).1 w' in
      let miss : (bit_and (P.inb keyboard_status_port s).0 1 == 0) ≡ false = ground arith in
      ((P.inb keyboard_data_port (P.inb keyboard_status_port s).1).1, rw (miss, here) refl, w'')

  no_key :
      (s : P.State)
      → K.Waiting [] s
      → (t : P.State) × (keyboard_handler P s ≡ ([], t)) × K.Waiting [] t
  unfolding keyboard_handler
  no_key s w = let (flag, w') = K.quiet s w in ((P.inb keyboard_status_port s).1, rw flag refl, w')

  rounds :
      (n : ℕ) (ks : List ℕ) (more : ℕ)
      → n ≡ length ks + more
      → (s : P.State) → K.Waiting ks s
      → (t : P.State) × (interrupts P n s ≡ (ks, t)) × K.Waiting [] t
  rounds zero [] more e s w = (s, refl, w)
  rounds zero (k ∷ ks) more e s w = absurd (omega arith)
  rounds (suc n) [] more e s w =
      let (t, ran, w') = no_key s w in
      let (u, ran', w'') = rounds n [] (more - 1) (omega arith) t w' in
      (u, rw (ran, ran') refl, w'')
  rounds (suc n) (k ∷ ks) more e s w =
      let (t, ran, w') = one_key k ks s w in
      let (u, ran', w'') = rounds n ks more (omega arith) t w' in (u, rw (ran, ran') refl, w'')

  -- One interrupt for each key that waits prints the keys in their order, each once; further
  -- interrupts print nothing.
  pub keyboard_handler-keys :
      (ks : List ℕ) (more : ℕ) (s : P.State)
      → K.Waiting ks s
      → (t : P.State) × (interrupts P (length ks + more) s ≡ (ks, t)) × K.Waiting [] t
  keyboard_handler-keys ks more s w = rounds (length ks + more) ks more refl s w

-- `keyboard_init` puts the handler into line 1 of a table of 16 lines, and `keyboard_exit` takes it
-- out; all other lines stay as they were.
pub keyboard_init-exit :
    (P : Ports) (hs : Handlers P)
    → length hs ≡ 16
    → let hs' = (keyboard_init P hs).1 in
      (get_or hs' 1 none ≡ some (keyboard_handler P))
      × (get_or (keyboard_exit P hs') 1 none ≡ none)
      × ((j : ℕ)
          → 1 ≢ j
          → (get_or hs' j none ≡ get_or hs j none)
            × (get_or (keyboard_exit P hs') j none ≡ get_or hs j none))
unfolding keyboard_init keyboard_exit
keyboard_init-exit P hs long =
    let hs' = set hs 1 (some (keyboard_handler P)) in
    let long' = length-set hs 1 (some (keyboard_handler P)) in
    (
      get_or-set_self hs 1 (some (keyboard_handler P)) none (omega arith),
      get_or-set_self hs' 1 none none (omega (arith, long')),
      λ j ne.
          let kept = get_or-set_ne hs 1 j (some (keyboard_handler P)) none ne in
          (kept, get_or-set_ne hs' 1 j none none ne ∙ kept),
    )
