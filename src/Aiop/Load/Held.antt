-- ===== src/Aiop/Load/Held.antt =====
-- What a ledger holds in the course of `aiopt_load`, and what `err_out` makes of it.
use gpp_aioptool.Base.{
  ℤ, ℕ, ◌≡◌, refl, subst, sym, ◌∙◌, arith, inl, inr, ◌⊎◌, false, ◌==◌, ==_iff, ap, Bool-cases, List,
  [], ◌∷◌,
}
use gpp_aioptool.Os.{map_failed}
use gpp_aioptool.Vfio.{Kernel}
use gpp_aioptool.Aiop.Ledger.{Ledger, holding, pages_of, same_entry, holds}
use gpp_aioptool.Aiop.Ledger.Dma.{Refuses}
use gpp_aioptool.Aiop.Ledger.Entries.{
  files_if, maps_if, strays_if, closed_if, unmapped_if, closed_if-files_if, unmapped_if-maps_if,
}
use gpp_aioptool.Aiop.Load.Image.{LoadVars, Loaded}

-- Nothing is held but what the kernel refused to unmap for the device, which is nothing unless it
-- refuses some request, and nothing was released
-- that was not held but `MAP_FAILED`, on which `munmap` fails without effect.
abbrev pub AllFailed : List (ℕ × ℕ) → Type 0
AllFailed [] = Unit {0}
AllFailed ((addr, pages) ∷ rest) = (addr ≡ map_failed) × AllFailed rest

pub record IsReleased (refusing : Type 0) (b : Ledger) : Type 0 where
  pub files : b.files ≡ []
  pub maps : b.maps ≡ []
  pub dmas : b.dmas ≡ []
  pub refused : (b.refused ≡ []) ⊎ refusing
  pub stray_files : b.stray_files ≡ []
  pub stray_dmas : b.stray_dmas ≡ []
  pub stray_maps : AllFailed b.stray_maps

-- The files and the mappings that the variables name, and the ledger that agrees with them.
abbrev pub files_of : LoadVars → List ℤ
files_of v = files_if v.args_fd (files_if v.fd [])

abbrev pub maps_of : LoadVars → List (ℕ × ℕ)
maps_of v = maps_if v.args_addr v.args_aligned_size (maps_if v.addr v.aligned_size [])

abbrev pub ledger_of : LoadVars → (dmas refused : List (ℕ × ℕ)) → Ledger
ledger_of v dmas refused = record (holding (files_of v) (maps_of v) dmas) { refused = refused }

-- The sizes of the files cover the pages that are mapped.
pub record IsWhole (v : LoadVars) : Type 0 where
  pub image : (v.addr == 0) ≡ false → pages_of v.aligned_size ≡ pages_of v.filesize
  pub args : (v.args_addr == 0) ≡ false → pages_of v.args_aligned_size ≡ pages_of v.args_filesize

abbrev pub Released : {S : Type 0} → Kernel S → Loaded → S × Ledger → Type 0
Released kernel r (s, b) = IsReleased (Refuses kernel) b

-- The ledger after `release_files`.
abbrev pub released_ledger : LoadVars → Ledger → Ledger
released_ledger v b = closed_if v.fd (
    unmapped_if v.addr v.filesize (closed_if v.args_fd (unmapped_if v.args_addr v.args_filesize b)))

strays_if-AllFailed :
    (addr len : ℕ) (rest : List (ℕ × ℕ)) → AllFailed rest → AllFailed (strays_if addr len rest)
strays_if-AllFailed addr len rest all = elim (Bool-cases (addr == map_failed)) [
  | inl failed ↦ rw failed ((==_iff addr map_failed).0 failed, all)
  | inr fine ↦ rw fine all
]

maps_if_lacks :
    (addr len pages : ℕ) → holds same_entry (map_failed, pages) (maps_if addr len []) ≡ false
maps_if_lacks addr len pages = ground arith

-- What `munmap` is called on without effect.
abbrev strays_of : LoadVars → List (ℕ × ℕ)
strays_of v = strays_if v.addr v.filesize (strays_if v.args_addr v.args_filesize [])

released_ledger-ledger_of :
    (v : LoadVars) (refused : List (ℕ × ℕ))
    → IsWhole v
    → released_ledger v (ledger_of v [] refused)
      ≡ record (holding [] [] []) { refused = refused; stray_maps = strays_of v }
released_ledger-ledger_of v refused whole =
    let strays = strays_if v.args_addr v.args_filesize [] in
    let image = maps_if v.addr v.aligned_size [] in
    ap (λ b. closed_if v.fd (unmapped_if v.addr v.filesize (closed_if v.args_fd b)))
      (unmapped_if-maps_if v.args_addr v.args_aligned_size v.args_filesize image
        (ledger_of v [] refused) whole.args (maps_if_lacks v.addr v.aligned_size _))
    ∙ ap (λ b. closed_if v.fd (unmapped_if v.addr v.filesize b))
        (closed_if-files_if v.args_fd (files_if v.fd [])
          (record (holding [] image []) { refused = refused; stray_maps = strays }))
    ∙ ap (closed_if v.fd) (
        unmapped_if-maps_if v.addr v.aligned_size v.filesize []
          (record (holding (files_if v.fd []) [] []) { refused = refused; stray_maps = strays })
          whole.image refl)
    ∙ closed_if-files_if v.fd []
        (record (holding [] [] []) { refused = refused; stray_maps = strays_of v })

pub released_ledger-IsReleased :
    (refusing : Type 0) (v : LoadVars) (refused : List (ℕ × ℕ))
    → (refused ≡ []) ⊎ refusing
    → IsWhole v
    → IsReleased refusing (released_ledger v (ledger_of v [] refused))
released_ledger-IsReleased refusing v refused all whole =
    subst (IsReleased refusing) (sym (released_ledger-ledger_of v refused whole)) (record {
      files = refl;
      maps = refl;
      dmas = refl;
      refused = all;
      stray_files = refl;
      stray_dmas = refl;
      stray_maps = strays_if-AllFailed v.addr _ _ (strays_if-AllFailed v.args_addr _ [] tt);
    })
