-- ===== src/Memory/Paging/Init/Range.antt =====
-- What the loops of `mapKernelRangeVirtual` and `mapKernelRangePhysical` map.
use xyris.Base.{
  ℕ, zero, suc, ◌+◌, ◌-◌, ◌*◌, ◌/◌, ◌≤◌, ◌<◌, ◌≡◌, ap, ◌∙◌, arith, true, false, subst, ◌==◌, ltb,
  if◌then◌else◌, add_word, some,
}
use xyris.Library.Bitset.{test}
use xyris.Memory.Paging.{kernel_entry, Paging, new_mapping, map_kernel_page}
use xyris.Memory.Paging.Consistent.{IsConsistent, new_mapping-IsConsistent}
use xyris.Memory.Paging.Init.{RangeEnd, mapped, panics, unfinished, next_page, map_addresses}
use xyris.Memory.Paging.Init.Clear.{in_run}
use xyris.Memory.Paging.MapPage.{entry, Maps, new_mapping-Maps, map_new}

-- `t` is `s` with the `k` pages from page `i` on mapped, page `q` to frame `q - off`, and nothing else
-- changed: neither an entry nor a bit.
pub record MapsRun (s : Paging) (i off k : ℕ) (t : Paging) : Type 0 where
  pub consistent : IsConsistent t
  pub mapped : (q : ℕ) → entry t q ≡ (if in_run i k q then kernel_entry (q - off) else entry s q)
  pub used :
      (x : ℕ) → test t.physical x ≡ (if in_run (i - off) k x then true else test s.physical x)

-- The loop ends with the pages mapped.
abbrev pub EndsMapped : Paging → ℕ → ℕ → ℕ → RangeEnd → Type 0
EndsMapped s i off k (mapped t) = MapsRun s i off k t
EndsMapped s i off k panics = ⊥
EndsMapped s i off k unfinished = ⊥

MapsRun-none : (s : Paging) (i off : ℕ) → IsConsistent s → MapsRun s i off 0 s
MapsRun-none s i off c = record {
  consistent = c;
  mapped = λ q. ground arith;
  used = λ x. ground arith;
}

MapsRun-next :
    (s t u : Paging) (i off k : ℕ)
    → off ≤ i
    → Maps s i (i - off) t
    → MapsRun t (i + 1) off k u
    → MapsRun s i off (suc k) u
MapsRun-next s t u i off k h m r = record {
  consistent = r.consistent;
  mapped = λ q.
      let here : i ≡ q → kernel_entry (i - off) ≡ kernel_entry (q - off) =
        λ e. ap (λ x. kernel_entry (x - off)) e in
      ground (arith, r.mapped q, m.mapped q, here, h);
  used = λ x. ground (arith, r.used x, m.used x, h);
}

EndsMapped-next :
    (s t : Paging) (i off k : ℕ)
    → off ≤ i
    → Maps s i (i - off) t
    → (r : RangeEnd) → EndsMapped t (i + 1) off k r
    → EndsMapped s i off (suc k) r
EndsMapped-next s t i off k h m (mapped u) r = MapsRun-next s t u i off k h m r
EndsMapped-next s t i off k h m panics r = r
EndsMapped-next s t i off k h m unfinished r = r

-- `translate` takes the address of page `q` to the address of frame `q - off`.
abbrev pub Shifts : (ℕ → ℕ) → ℕ → Type 0
Shifts translate off = (q : ℕ) → off ≤ q → q < 1048576 → translate (q * 4096) ≡ (q - off) * 4096

module _ (translate : ℕ → ℕ) (off end : ℕ) (shifts : Shifts translate off) where
  -- The call of `mapKernelPage` for page `i` maps it.
  abbrev MapsOne : Paging → ℕ → Type 0
  MapsOne s i =
      (t : Paging) × (map_kernel_page s (i * 4096) (translate (i * 4096)) ≡ some t)
      × IsConsistent t
      × Maps s i (i - off) t

  EndsMapped-page :
      (s : Paging) (i k : ℕ)
      → off ≤ i
      → MapsOne s i
      → (rest : Paging → RangeEnd)
      → ((t : Paging) → IsConsistent t → Maps s i (i - off) t → EndsMapped t (i + 1) off k (rest t))
      → EndsMapped s i off
          (suc k)
          (next_page rest (map_kernel_page s (i * 4096) (translate (i * 4096))))
  EndsMapped-page s i k lo (t, e, c, m) rest later =
      rw e (EndsMapped-next s t i off k lo m (rest t) (later t c m))

  map_one :
      (s : Paging) (i : ℕ)
      → IsConsistent s
      → off ≤ i
      → i < 1048576
      → (entry s i).present ≡ false
      → MapsOne s i
  map_one s i c lo hi absent =
      let page : i * 4096 / 4096 ≡ i = omega arith in
      let e : translate (i * 4096) ≡ (i - off) * 4096 = shifts i lo hi in
      let frame : (i - off) * 4096 / 4096 ≡ i - off = omega arith in
      let t = new_mapping s (i * 4096) ((i - off) * 4096) in
      let at_page =
        subst (λ x. Maps s x ((i - off) * 4096 / 4096) t) page
          (new_mapping-Maps s (i * 4096) ((i - off) * 4096) c.sized (omega arith) (omega arith)) in
      (
        t,
        ap (map_kernel_page s (i * 4096)) e
            ∙ map_new s (i * 4096) ((i - off) * 4096) (omega arith) (omega arith)
                (ap (λ q. (entry s q).present) page ∙ absent),
        new_mapping-IsConsistent s (i * 4096) ((i - off) * 4096) c (omega arith) (omega arith),
        subst (λ x. Maps s i x t) frame at_page,
      )

  -- With more rounds than pages, the loop from page `i` on maps the `k` pages up to the end.
  pub map_addresses-EndsMapped :
      (n k : ℕ) (s : Paging) (i : ℕ)
      → IsConsistent s
      → off ≤ i
      → i + k < 1048576
      → end ≤ (i + k) * 4096
      → (i + k) * 4096 < end + 4096
      → k < n
      → ((q : ℕ) → i ≤ q → q < i + k → (entry s q).present ≡ false)
      → EndsMapped s i off k (map_addresses translate n end s (i * 4096))
  unfolding map_addresses
  map_addresses-EndsMapped zero k s i c lo hi before behind rounds absent = absurd (omega arith)
  map_addresses-EndsMapped (suc n) zero s i c lo hi before behind rounds absent =
      let stop : ltb (i * 4096) end ≡ false = ground arith in rw stop (MapsRun-none s i off c)
  map_addresses-EndsMapped (suc n) (suc k) s i c lo hi before behind rounds absent =
      let go : ltb (i * 4096) end ≡ true = ground arith in
      let step : add_word (i * 4096) 4096 ≡ (i + 1) * 4096 = omega arith in
      let absent_behind : (t : Paging)
          → Maps s i (i - off) t
          → (q : ℕ) → i + 1 ≤ q
          → q < i + 1 + k
          → (entry t q).present ≡ false =
        λ t m q a b.
          let away : (i == q) ≡ false = ground arith in
          ap (λ x. x.present) (m.mapped q)
          ∙ ap (λ b. (if b then kernel_entry (i - off) else entry s q).present) away
          ∙ absent q (omega arith) (omega arith) in
      rw (go, step)
        (EndsMapped-page s i k lo
          (map_one s i c lo (omega arith) (absent i (omega arith) (omega arith))) _
          (λ t ct m.
            map_addresses-EndsMapped n k t (i + 1) ct (omega arith) (omega arith) (omega arith)
              (omega arith) (omega arith) (absent_behind t m)))
