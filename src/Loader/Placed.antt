-- ===== src/Loader/Placed.antt =====
-- Where kernel/src/modules/loader.c puts the segments of a file that lies below the heap.
use svetos_kernel.Base.{
  ℕ, zero, suc, ◌+◌, ◌*◌, ◌/◌, ◌^◌, false, add32, ltb-false, ◌≤◌, ◌<◌, ◌≡◌, ◌≢◌, inl, inr, refl,
  ◌∙◌, subst, arith,
}
use svetos_kernel.Allocator.{Ptr, null, Allocator, Allocated}
use svetos_kernel.Strings.{Bytes}
use svetos_kernel.Loader.{
  past_block, ProgramHeader, program_header, pt_load, read32, fill_segment, Image,
}
use svetos_kernel.Loader.Segment.{fill_segment_lem}

module _ (A : Allocator) where
  -- What loading keeps: the bytes below the heap, and what was handed out, with its bytes.
  pub record Keeps (s s' : Image A) : Type 0 where
    pub below : (a : ℕ) → a < A.low → s'.bytes a ≡ s.bytes a
    pub owned : (r : Ptr) (k : ℕ) → A.Owned s.heap r k → A.Owned s'.heap r k
    pub blocks :
        (r : Ptr) (k i : ℕ) → A.Owned s.heap r k → i < k → s'.bytes (r + i) ≡ s.bytes (r + i)

  pub Keeps-refl : (s : Image A) → Keeps s s
  Keeps-refl s = record { below = λ a lt. refl; owned = λ r k o. o; blocks = λ r k i o lt. refl }

  pub Keeps-trans : (s t u : Image A) → Keeps s t → Keeps t u → Keeps s u
  Keeps-trans s t u h g = record {
    below = λ a lt. g.below a lt ∙ h.below a lt;
    owned = λ r k o. g.owned r k (h.owned r k o);
    blocks = λ r k i o lt. g.blocks r k i (h.owned r k o) lt ∙ h.blocks r k i o lt;
  }

  -- The header's file part lies below the heap and is not larger than its memory.
  pub record Fits (module_data : Ptr) (ph : ProgramHeader) : Type 0 where
    pub shorter : ph.filesz ≤ ph.memsz
    pub small : ph.memsz + 7 < 2 ^ 32
    pub inside : module_data + ph.offset + ph.filesz ≤ A.low

  pub Fits-inside :
      (module_data : Ptr) (ph : ProgramHeader) → Fits module_data ph → past_block A ph ≡ false
  Fits-inside module_data ph f =
      let a = ltb-false (add32 ph.memsz 7 / 8 * 8) ph.filesz (omega (arith, f.shorter, f.small)) in
      let b = ltb-false (add32 ph.memsz 7 / 8 * 8) ph.memsz (omega (arith, f.small)) in
      rw (a, b) refl

  -- `seg` is handed out for the segment and holds its bytes of `file`, with zeros behind them.
  pub record IsPlaced (module_data : Ptr) (ph : ProgramHeader) (file : Bytes) (seg : Ptr)
      (s : Image A) : Type 0 where
    pub owned : A.Owned s.heap seg ph.memsz
    pub copied : (i : ℕ) → i < ph.filesz → s.bytes (seg + i) ≡ file (module_data + ph.offset + i)
    pub zeros : (i : ℕ) → ph.filesz ≤ i → i < ph.memsz → s.bytes (seg + i) ≡ 0

  -- the same of each loadable header among the `left` ones from `p`, as the file shows them
  abbrev pub AllFit : (module_data : Ptr) → Bytes → (left : ℕ) → (p : Ptr) → Type 0
  AllFit module_data file zero p = Unit
  AllFit module_data file (suc left) p =
      ((program_header file p).type ≡ pt_load → Fits module_data (program_header file p))
      × AllFit module_data file left (p + 32)

  abbrev pub AllPlaced : (module_data : Ptr) → Bytes → (left : ℕ) → (p : Ptr) → Image A → Type 0
  AllPlaced module_data file zero p s = Unit
  AllPlaced module_data file (suc left) p s =
      ((program_header file p).type ≡ pt_load
        → (seg : Ptr) × (seg ≢ null) × IsPlaced module_data (program_header file p) file seg s)
      × AllPlaced module_data file left (p + 32) s

  pub IsPlaced-kept :
      (module_data : Ptr) (ph : ProgramHeader) (file : Bytes) (seg : Ptr) (s s' : Image A)
      → ph.filesz ≤ ph.memsz
      → Keeps s s'
      → IsPlaced module_data ph file seg s
      → IsPlaced module_data ph file seg s'
  IsPlaced-kept module_data ph file seg s s' le h v = record {
    owned = h.owned seg ph.memsz v.owned;
    copied = λ i lt. h.blocks seg ph.memsz i v.owned (omega arith) ∙ v.copied i lt;
    zeros = λ i ge lt. h.blocks seg ph.memsz i v.owned lt ∙ v.zeros i ge lt;
  }

  -- A header below the heap reads the same after loading.
  pub header-same :
      (file mem : Bytes) (p : Ptr)
      → ((a : ℕ) → a < A.low → mem a ≡ file a)
      → p + 32 ≤ A.low
      → program_header mem p ≡ program_header file p
  header-same file mem p same le =
      let word : (q : ℕ) → q + 4 ≤ A.low → read32 mem q ≡ read32 file q = λ q l.
        rw
          (
            same q (omega arith),
            same (q + 1) (omega arith),
            same (q + 2) (omega arith),
            same (q + 2 + 1) (omega arith),
          )
          refl in
      rw
        (
          word p (omega arith),
          word (p + 4) (omega arith),
          word (p + 16) (omega arith),
          word (p + 20) (omega arith),
        )
        refl

  -- One segment in a block that the allocator has just handed out.
  pub fill-IsPlaced :
      (module_data : Ptr) (ph : ProgramHeader) (file : Bytes) (s : Image A) (seg : Ptr)
      (heap' : A.State)
      → Fits module_data ph
      → ((a : ℕ) → a < A.low → s.bytes a ≡ file a)
      → Allocated A.Owned s.heap ph.memsz seg heap'
      → let s' : Image A = record {
        bytes = fill_segment seg module_data ph s.bytes;
        heap = heap';
      } in
        Keeps s s' × IsPlaced module_data ph file seg s'
  fill-IsPlaced module_data ph file s seg heap' f same got =
      let low = A.Owned-low seg ph.memsz heap' got.owned in
      let high = A.Owned-high seg ph.memsz heap' got.owned in
      let (copied, zeros, rest) =
        fill_segment_lem seg module_data ph s.bytes f.shorter high (omega (arith, f.inside))
          (inr (omega (arith, f.inside))) in
      (
        record {
          below = λ a lt. rest a (inl (omega arith));
          owned = got.kept;
          blocks = λ r k i o lt.
              let ne : r ≢ seg = λ e. got.fresh k (subst (λ x. A.Owned s.heap x k) e o) in
              let apart = A.Owned-apart r seg k ph.memsz heap' (got.kept r k o) got.owned ne in
              rest (r + i) (ground arith);
        },
        record {
          owned = got.owned;
          copied =
              λ i lt. copied i lt ∙ same (module_data + ph.offset + i) (omega (arith, f.inside));
          zeros = zeros;
        },
      )
