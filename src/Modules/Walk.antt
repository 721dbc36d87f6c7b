-- ===== src/Modules/Walk.antt =====
-- What the walks of kernel/src/modules/manager.c see of the list.
use svetos_kernel.Base.{
  ℕ, zero, suc, ◌+◌, refl, Bool, Option, none, ap₂, ◌∙◌, ◌<◌, ◌≡◌, inl, inr, true, false, some,
  List, [], ◌∷◌, ◌==◌, if◌then◌else◌, length, Bool-cases, arith,
}
use svetos_kernel.Dll.{Ptr, null, Links}
use svetos_kernel.Dll.Ring.{In, Linked, IsRing}
use svetos_kernel.Registry.{Str, CString}
use svetos_kernel.Modules.{
  KernelModule, run_init, walk_init, initialize_modules, walk_find, find_module,
}

module _ (M : Type 0) (head : Ptr) (s : Links) (mods : Ptr → KernelModule M) where
  -- the machine after the `init` of every module, in order
  abbrev pub after_init : Option (M → Bool × M) → M → M
  after_init none m = m
  after_init (some init) m = (init m).1

  abbrev pub after_all : List Ptr → M → M
  after_all [] m = m
  after_all (x ∷ xs) m = after_all xs (after_init (mods x).init m)

  -- how many returned 0, each on the machine that those before it have left
  abbrev pub returns_0 : Option (M → Bool × M) → M → ℕ
  returns_0 none m = 0
  returns_0 (some init) m = if (init m).0 then 1 else 0

  abbrev pub succeeded : List Ptr → M → ℕ
  succeeded [] m = 0
  succeeded (x ∷ xs) m = returns_0 (mods x).init m + succeeded xs (after_init (mods x).init m)

  run_init-eq :
      (o : Option (M → Bool × M)) (count : ℕ) (m : M)
      → run_init M head o (count, m) ≡ (count + returns_0 o m, after_init o m)
  run_init-eq none count m = ap₂ (λ a b. (a, b)) (omega arith) refl
  run_init-eq (some init) count m = elim (Bool-cases (init m).0) [
    | inl ok ↦ rw ok refl
    | inr failed ↦ rw failed (ap₂ (λ a b. (a, b)) (omega arith) refl)
  ]

  -- the first module of that name, or null
  pub first_named : CString → Str → List Ptr → Ptr
  first_named C name [] = null
  first_named C name (x ∷ xs) =
      let rest = first_named C name xs in if C.strcmp (mods x).name name then x else rest

  walk_init_lem :
      (xs : List Ptr) (a : Ptr) (fuel count : ℕ) (m : M)
      → Linked s a xs head
      → ¬ In head xs
      → length xs < fuel
      → walk_init M head fuel s mods (s.next a) (count, m)
        ≡ some (count + succeeded xs m, after_all xs m)
  unfolding walk_init
  walk_init_lem xs a zero count m l out lt = absurd (omega arith)
  walk_init_lem [] a (suc fuel) count m l out lt =
      let stop : (s.next a == head) ≡ true = ground arith in
      rw stop (ap₂ (λ b c. some (b, c)) (omega arith) refl)
  walk_init_lem (x ∷ xs) a (suc fuel) count m l out lt =
      let go_on : (x == head) ≡ false = ground arith in
      let o = (mods x).init in
      rw (l.0, go_on, run_init-eq o count m)
        (walk_init_lem xs x fuel (count + returns_0 o m) (after_init o m) l.2 (λ i. out (inr i))
            (omega arith)
          ∙ ap₂ (λ b c. some (b, c)) (omega arith) refl)

  walk_find_lem :
      (C : CString) (name : Str) (xs : List Ptr) (a : Ptr) (fuel : ℕ)
      → Linked s a xs head
      → ¬ In head xs
      → length xs < fuel
      → walk_find M head C fuel s mods name (s.next a) ≡ some (first_named C name xs)
  unfolding walk_find first_named
  walk_find_lem C name xs a zero l out lt = absurd (omega arith)
  walk_find_lem C name [] a (suc fuel) l out lt =
      let stop : (s.next a == head) ≡ true = ground arith in rw stop
  walk_find_lem C name (x ∷ xs) a (suc fuel) l out lt =
      let go_on : (x == head) ≡ false = ground arith in
      let rest = walk_find_lem C name xs x fuel l.2 (λ i. out (inr i)) (omega arith) in
      rw (l.0, go_on, rest)
        (elim (Bool-cases (C.strcmp (mods x).name name)) [ inl hit ↦ rw hit | inr miss ↦ rw miss ])

  -- On a list of the modules `xs`, with one round more than modules, `find_module` returns the
  -- first module of the name, or null, and `initialize_modules` leaves the machine as the `init` of
  -- every module that has one leaves it, run once each in the order of the list, and returns how
  -- many of these returned 0.
  pub walks_lem :
      (C : CString) (name : Str) (xs : List Ptr) (fuel : ℕ) (m : M)
      → IsRing s head xs
      → length xs < fuel
      → (find_module M head C fuel s mods name ≡ some (first_named C name xs))
        × (initialize_modules M head fuel s mods m ≡ some (succeeded xs m, after_all xs m))
  unfolding find_module initialize_modules
  walks_lem C name xs fuel m r lt = (
    walk_find_lem C name xs head fuel r.0 r.2 lt,
    walk_init_lem xs head fuel 0 m r.0 r.2 lt ∙ ap₂ (λ a b. some (a, b)) (omega arith) refl,
  )
