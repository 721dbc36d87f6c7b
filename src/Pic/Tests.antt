-- ===== src/Pic/Tests.antt =====
-- The two controllers as a machine of their mask registers.
use svetos_kernel.Base.{ℕ, ◌%◌, ◌<◌, ◌≡◌, ◌≢◌, inl, inr, refl, ◌==◌, if◌then◌else◌, arith}
use svetos_kernel.Ports.{Ports}
use svetos_kernel.Pic.Device.{IsData, PicDevice}

-- the mask registers alone
abbrev read : ℕ → ℕ × ℕ → ℕ
read p (m1, m2) = if p == 0x21 then m1 % 256 else if p == 0xA1 then m2 % 256 else 0

abbrev written : ℕ → ℕ → ℕ × ℕ → ℕ × ℕ
written p v (m1, m2) = if p == 0x21 then (v, m2) else if p == 0xA1 then (m1, v) else (m1, m2)

abbrev machine : Ports
machine = record {
  State = ℕ × ℕ;
  inb = λ p s. (read p s, s);
  inw = λ p s. (read p s, s);
  outb = written;
}

read_small : (p : ℕ) (s : ℕ × ℕ) → read p s < 256
read_small p (m1, m2) =
    let one : m1 % 256 < 256 = omega arith in let two : m2 % 256 < 256 = omega arith in ground arith

write_mask : (p v : ℕ) (s : ℕ × ℕ) → IsData p → v < 256 → read p (written p v s) ≡ v
write_mask p v (m1, m2) (inl e) small = let same : v % 256 ≡ v = omega arith in rw (e, same)
write_mask p v (m1, m2) (inr e) small = let same : v % 256 ≡ v = omega arith in rw (e, same)

write_other :
    (p q v : ℕ) (s : ℕ × ℕ) → IsData p → IsData q → p ≢ q → read q (written p v s) ≡ read q s
write_other p q v (m1, m2) (inl e) (inl e') ne = absurd (omega arith)
write_other p q v (m1, m2) (inl e) (inr e') ne = rw (e, e')
write_other p q v (m1, m2) (inr e) (inl e') ne = rw (e, e')
write_other p q v (m1, m2) (inr e) (inr e') ne = absurd (omega arith)

abbrev device : PicDevice machine
device = record {
  Ready = λ _. Unit {0};
  mask = read;
  mask_small = read_small;
  inb_mask = λ p s d r. refl;
  outb_mask = λ p v s d r. write_mask p v s d;
  outb_other = λ p q v s d d' ne r. write_other p q v s d d' ne;
  outb-Ready = λ p v s d r. tt;
  icw-Ready = λ o1 o2 s. tt;
}
