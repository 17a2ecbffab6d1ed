-- ===== src/Syscall/Bounds.antt =====
-- What passes the argument checks lies inside the process.
use sofinal_project.Prelude.{
  ℕ, zero, suc, ◌+◌, ◌-◌, ◌*◌, ◌%◌, ◌^◌, ◌≤◌, ◌<◌, ◌≡◌, ◌≢◌, sym, ap, ◌∙◌, inl, inr, some, arith,
  ◌==◌, Bool-cases, Option-cases,
}
use sofinal_project.Syscall.{Bytes, int_at, fetchint, fetchstr_loop, fetchstr, argint, argptr}

-- The address that `argint` reads.
abbrev pub slot : ℕ → ℕ → ℕ
slot esp n = (esp + 4 + 4 * n) % 2 ^ 32

-- In a process that ends below KERNBASE: if `argptr` passes a pointer on, the argument that it stands
-- in and the whole block of `size` bytes from it on lie inside the process, without
-- wrapping around.
pub argptr-inside :
    (sz : ℕ) (mem : Bytes) (esp n size p : ℕ)
    → sz ≤ 0x80000000
    → argptr sz mem esp n size ≡ some p
    → (p + size ≤ sz) × (p < sz) × (slot esp n + 4 ≤ sz) × (p ≡ int_at mem (slot esp n))
unfolding argptr argint fetchint
argptr-inside sz mem esp n size p small e = ground arith

fetchstr_loop-some :
    (mem : Bytes) (s n left m : ℕ)
    → fetchstr_loop mem s n left ≡ some m
    → (n ≤ m) × (m < n + left) × (mem (s + (m - n)) ≡ 0) × ((k : ℕ) → n + k < m → mem (s + k) ≢ 0)
unfolding fetchstr_loop
fetchstr_loop-some mem s n zero m e = absurd (ground arith)
fetchstr_loop-some mem s n (suc left) m e = elim (Bool-cases (mem s == 0)) [
  | inl ends ↦
      let here : n ≡ m = ground arith in
      let at_start : s + (m - n) ≡ s = omega arith in
      let null : mem s ≡ 0 = ground arith in
      (omega arith, omega arith, ap mem at_start ∙ null, λ k lt. absurd (omega arith))
  | inr goes_on ↦
      let later : fetchstr_loop mem (s + 1) (n + 1) left ≡ some m = ground arith in
      let (above, below, ends, earlier) = fetchstr_loop-some mem (s + 1) (n + 1) left m later in
      (
        omega arith,
        omega arith,
        ap mem (omega arith) ∙ ends,
        λ k lt z. elim (Bool-cases (k == 0)) [
          | inl at_start ↦ let e0 : mem s ≡ 0 = ap mem (ground arith) ∙ z in absurd (ground arith)
          | inr behind ↦ earlier (k - 1) (ground arith) (ap mem (ground arith) ∙ z)
        ],
      )
]

-- If `fetchstr` passes a string on, it starts at the address given, all of it including the null byte lies
-- inside the process, and the length is that of the string.
pub fetchstr-inside :
    (sz : ℕ) (mem : Bytes) (addr p len : ℕ)
    → fetchstr sz mem addr ≡ some (p, len)
    → (p ≡ addr) × (p + len < sz) × (mem (p + len) ≡ 0) × ((k : ℕ) → k < len → mem (p + k) ≢ 0)
unfolding fetchstr
fetchstr-inside sz mem addr p len e = elim (Option-cases (fetchstr_loop mem addr 0 (sz - addr))) [
  | inl runs_out ↦ absurd (ground (arith, runs_out))
  | inr (m, found) ↦
      let at_addr : addr ≡ p = ground (arith, found) in
      let same : m ≡ len = ground (arith, found) in
      let inside : addr < sz = ground (arith, found) in
      let (above, below, ends, earlier) = fetchstr_loop-some mem addr 0 (sz - addr) m found in
      (
        sym at_addr,
        omega arith,
        ap mem (omega arith) ∙ ends,
        λ k lt z. earlier k (omega arith) (ap mem (omega arith) ∙ z),
      )
]
