-- ===== src/Aiop/Ledger/Entries.antt =====
-- Entries that a ledger has gained are struck off again, the last first.
use gpp_aioptool.Base.{
  arith, ◌⊎◌, ℕ, ◌≡◌, refl, ◌==◌, ◌||◌, if◌then◌else◌, not, Bool-cases, false, inl, inr, List, [],
  ◌∷◌, ℤ, is_positive, same_int_refl, ==_iff, ==_refl, Bool, true, subst, sym,
}
use gpp_aioptool.Os.{map_failed}
use gpp_aioptool.Vfio.Dma.{irq_region}
use gpp_aioptool.Aiop.Ledger.{
  Ledger, pages_of, same_entry, holds, file_closed, map_removed, dma_removed,
}

abbrev pub files_if : ℤ → List ℤ → List ℤ
files_if fd rest = if is_positive fd then fd ∷ rest else rest

abbrev pub maps_if : (addr len : ℕ) → List (ℕ × ℕ) → List (ℕ × ℕ)
maps_if addr len rest =
    if addr == 0 || addr == map_failed then rest else (addr, pages_of len) ∷ rest

abbrev pub strays_if : (addr len : ℕ) → List (ℕ × ℕ) → List (ℕ × ℕ)
strays_if addr len rest = if addr == map_failed then (addr, pages_of len) ∷ rest else rest

abbrev pub dmas_if : (iova size : ℕ) → List (ℕ × ℕ) → List (ℕ × ℕ)
dmas_if iova size rest = if iova == irq_region then rest else (iova, size) ∷ rest

-- What the kernel refuses to unmap.
abbrev pub refused_if : (granted : Bool) → (iova size : ℕ) → List (ℕ × ℕ) → List (ℕ × ℕ)
refused_if granted iova size rest =
    if iova == irq_region || granted then rest else (iova, size) ∷ rest

pub refused_if_granted :
    {R : Type 0} (granted : Bool) (iova size : ℕ) (rest : List (ℕ × ℕ))
    → (granted ≡ true) ⊎ R
    → (rest ≡ []) ⊎ R
    → (refused_if granted iova size rest ≡ []) ⊎ R
refused_if_granted granted iova size rest (inl all) (inl nothing) =
    inl (ground (arith, all, nothing))
refused_if_granted granted iova size rest (inl all) (inr r) = inr r
refused_if_granted granted iova size rest (inr r) before = inr r

-- Closing a file if its descriptor is positive, and unmapping memory unless its address is 0.
abbrev pub closed_if : ℤ → Ledger → Ledger
closed_if fd b = if is_positive fd then file_closed fd b else b

abbrev pub unmapped_if : (addr len : ℕ) → Ledger → Ledger
unmapped_if addr len b = if not (addr == 0) then map_removed addr len b else b

pub same_entry_refl : (entry : ℕ × ℕ) → same_entry entry entry ≡ true
same_entry_refl (addr, size) = ground arith

pub closed_if-files_if :
    (fd : ℤ) (rest : List ℤ) (b : Ledger)
    → closed_if fd (record b { files = files_if fd rest }) ≡ record b { files = rest }
closed_if-files_if fd rest b = elim (Bool-cases (is_positive fd)) [
  | inl held ↦ rw held (rw (same_int_refl fd) refl)
  | inr none_held ↦ rw none_held refl
]

-- Unmapping as many pages as were mapped.
pub unmapped_if-maps_if :
    (addr mapped len : ℕ) (rest : List (ℕ × ℕ)) (b : Ledger)
    → ((addr == 0) ≡ false → pages_of mapped ≡ pages_of len)
    → holds same_entry (map_failed, pages_of len) rest ≡ false
    → unmapped_if addr len (record b { maps = maps_if addr mapped rest })
      ≡ record b { maps = rest; stray_maps = strays_if addr len b.stray_maps }
unmapped_if-maps_if addr mapped len rest b whole lacks = elim (Bool-cases (addr == map_failed)) [
  | inl failed ↦
      subst
        (λ a.
          unmapped_if a len (record b { maps = maps_if a mapped rest })
          ≡ record b { maps = rest; stray_maps = strays_if a len b.stray_maps })
        (sym ((==_iff addr map_failed).0 failed)) (rw lacks refl)
  | inr fine ↦ elim (Bool-cases (addr == 0)) [
    | inl null ↦ rw (fine, null) refl
    | inr there ↦
        subst
          (λ n.
            unmapped_if addr len (record b {
              maps = if addr == 0 || addr == map_failed then rest else (addr, n) ∷ rest;
            })
            ≡ record b { maps = rest; stray_maps = strays_if addr len b.stray_maps })
          (sym (whole there)) (rw (fine, there) (rw (same_entry_refl (addr, pages_of len)) refl))
  ]
]

-- Unmapping the whole size.
pub dma_removed-dmas_if :
    (granted : Bool) (iova size : ℕ) (rest : List (ℕ × ℕ)) (b : Ledger)
    → dma_removed granted iova size (record b { dmas = dmas_if iova size rest })
      ≡ record b { dmas = rest; refused = refused_if granted iova size b.refused }
dma_removed-dmas_if granted iova size rest b = elim (Bool-cases (iova == irq_region)) [
  | inl irq ↦ rw irq refl
  | inr memory ↦ rw memory (rw (==_refl iova, ==_refl size) refl)
]
