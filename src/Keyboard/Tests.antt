-- ===== src/Keyboard/Tests.antt =====
-- A controller that holds the keys in a list.
use svetos_kernel.Base.{ℕ, ◌≡◌, ◌≢◌, refl, List, [], ◌∷◌, ◌==◌, if◌then◌else◌, bit_and, arith}
use svetos_kernel.Ports.{Ports}
use svetos_kernel.Keyboard.Lines.{Keys}

abbrev status : List ℕ → ℕ
status [] = 0
status (k ∷ ks) = 1

abbrev front : List ℕ → ℕ
front [] = 0
front (k ∷ ks) = k

abbrev behind : List ℕ → List ℕ
behind [] = []
behind (k ∷ ks) = ks

abbrev read : ℕ → List ℕ → ℕ × List ℕ
read p ks = if p == 0x64 then (status ks, ks) else (front ks, behind ks)

abbrev bus : Ports
bus = record { State = List ℕ; inb = read; inw = read; outb = λ p v ks. ks }

raised : (k : ℕ) (ks s : List ℕ) → s ≡ k ∷ ks → bit_and (status s) 1 ≢ 0
raised k ks s e = rw e λ h. omega arith

abbrev keys : Keys bus
keys = record {
  Waiting = λ ks s. s ≡ ks;
  quiet = λ s e. (rw e refl, e);
  pressed = λ k ks s e. (raised k ks s e, e);
  key = λ k ks s e. rw e (refl, refl);
}
