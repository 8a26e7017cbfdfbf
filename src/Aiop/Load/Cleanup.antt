-- ===== src/Aiop/Load/Cleanup.antt =====
-- The cleanup of `aiopt_load`, beside a ledger: it strikes off all entries.
use gpp_aioptool.Base.{
  ℕ, ◌≡◌, refl, subst, sym, ◌∙◌, inl, inr, ◌⊎◌, Bool, true, false, not, ◌==◌, ap, Returns-mono, ltb,
  Bool-cases, List, [], some, ℤ, is_positive, Returns, Returns-bind, if◌then◌else◌,
}
use gpp_aioptool.Os.{Os, perform_if}
use gpp_aioptool.Vfio.{Kernel, VfioTables}
use gpp_aioptool.Aiop.Types.{AioptObj}
use gpp_aioptool.Aiop.Ledger.{
  Ledger, ledger_os, ledger_kernel, map_removed, file_closed, dma_removed,
}
use gpp_aioptool.Aiop.Ledger.Dma.{Refuses, DestroyDone, destroy_dmamap_ledger}
use gpp_aioptool.Aiop.Ledger.Entries.{
  dmas_if, refused_if_granted, closed_if, unmapped_if, dma_removed-dmas_if,
}
use gpp_aioptool.Aiop.Load.Image.{
  LoadVars, release_files, err_out, err_cleanup_elf, err_cleanup_args,
}
use gpp_aioptool.Aiop.Load.Held.{
  IsReleased, Released, ledger_of, IsWhole, released_ledger, released_ledger-IsReleased,
}

perform_if_lem :
    {S : Type 0} (c : Bool) (f : S → S) (g : Ledger → Ledger) (s : S) (b : Ledger)
    → Returns
        (λ u (s', b'). b' ≡ (if c then g b else b))
        (perform_if c (λ (t, a). (f t, g a)) (s, b))
perform_if_lem true f g s b = refl
perform_if_lem false f g s b = refl

-- The group is connected, and the object has its handle.
pub record IsSetUp (handle : ℕ) (obj : AioptObj) (t : VfioTables) : Type 0 where
  pub handled : obj.vfio_handle ≡ some handle
  pub connected : t.group.connected ≡ true

-- A file is mapped: at an address, and with a size.
abbrev pub IsAt : (addr aligned_size : ℕ) → Type 0
IsAt addr aligned_size = ((addr == 0) ≡ false) × (ltb 0 aligned_size ≡ true)

-- What is mapped for the device after the image, if there are arguments.
abbrev pub args_dmas : LoadVars → List (ℕ × ℕ) → List (ℕ × ℕ)
args_dmas v rest = if v.with_args then dmas_if v.args_addr v.args_aligned_size rest else rest

pub args_dmas_some :
    (v : LoadVars) (rest : List (ℕ × ℕ))
    → v.with_args ≡ true
    → args_dmas v rest ≡ dmas_if v.args_addr v.args_aligned_size rest
args_dmas_some v rest given =
    ap (λ c. if c then dmas_if v.args_addr v.args_aligned_size rest else rest) given

pub args_dmas_none :
    (v : LoadVars) (rest : List (ℕ × ℕ)) → v.with_args ≡ false → args_dmas v rest ≡ rest
args_dmas_none v rest without =
    ap (λ c. if c then dmas_if v.args_addr v.args_aligned_size rest else rest) without

module _ {S : Type 0} (os : Os S) (kernel : Kernel S) (polls : ℕ) (reset : Bool) (tpc : ℕ) where
  release_files_lem :
      (v : LoadVars) (s : S) (b : Ledger)
      → Returns
          (λ u (s', b'). b' ≡ released_ledger v b)
          (release_files (ledger_os os) (ledger_kernel kernel) polls reset tpc v (s, b))
  unfolding release_files
  release_files_lem v s b =
      Returns-bind (λ u (s1, b1). b1 ≡ unmapped_if v.args_addr v.args_filesize b)
        (λ u (s', b'). b' ≡ released_ledger v b) _ _
        (perform_if_lem (not (v.args_addr == 0)) (os.munmap v.args_addr v.args_filesize)
          (map_removed v.args_addr v.args_filesize) s b)
        (λ u (s1, b1) e1.
          Returns-bind (λ w (s2, b2). b2 ≡ closed_if v.args_fd b1)
            (λ w (s', b'). b' ≡ released_ledger v b) _ _
            (perform_if_lem (is_positive v.args_fd) (os.close v.args_fd) (file_closed v.args_fd) s1
              b1)
            (λ w (s2, b2) e2.
              Returns-bind (λ x (s3, b3). b3 ≡ unmapped_if v.addr v.filesize b2)
                (λ x (s', b'). b' ≡ released_ledger v b) _ _
                (perform_if_lem (not (v.addr == 0)) (os.munmap v.addr v.filesize)
                  (map_removed v.addr v.filesize) s2 b2)
                (λ x (s3, b3) e3.
                  Returns-mono _ (λ y (s', b'). b' ≡ released_ledger v b) _
                    (λ y (s', b') e4.
                      e4
                      ∙ ap (closed_if v.fd) (
                          e3
                          ∙ ap (unmapped_if v.addr v.filesize) (e2 ∙ ap (closed_if v.args_fd) e1)))
                    (perform_if_lem (is_positive v.fd) (os.close v.fd) (file_closed v.fd) s3 b3))))

  pub err_out-Released :
      (v : LoadVars) (ret : ℤ) (obj : AioptObj) (t : VfioTables) (s : S) (b : Ledger)
      (refused : List (ℕ × ℕ))
      → (refused ≡ []) ⊎ Refuses kernel
      → IsWhole v
      → b ≡ ledger_of v [] refused
      → Returns
          (Released kernel)
          (err_out (ledger_os os) (ledger_kernel kernel) polls reset tpc v ret obj t (s, b))
  unfolding err_out
  err_out-Released v ret obj t s b refused all whole agrees =
      Returns-bind (λ u (s', b'). b' ≡ released_ledger v b) (Released kernel) _ _
        (release_files_lem v s b)
        (λ u (s', b') e.
          subst (IsReleased (Refuses kernel)) (sym (e ∙ ap (released_ledger v) agrees))
            (released_ledger-IsReleased (Refuses kernel) v refused all whole))

  pub err_cleanup_elf-Released :
      (v : LoadVars) (ret : ℤ) (handle : ℕ) (obj : AioptObj) (t : VfioTables) (s : S) (b : Ledger)
      (refused : List (ℕ × ℕ))
      → (refused ≡ []) ⊎ Refuses kernel
      → IsSetUp handle obj t
      → IsWhole v
      → IsAt v.addr v.aligned_size
      → b ≡ ledger_of v (dmas_if v.addr v.aligned_size []) refused
      → Returns
          (Released kernel)
          (err_cleanup_elf (ledger_os os) (ledger_kernel kernel) polls reset tpc v ret obj t (s, b))
  unfolding err_cleanup_elf
  err_cleanup_elf-Released v ret handle obj t s b refused all setup whole mapped agrees =
      simp (mapped.0, mapped.1)
        (Returns-bind
          (DestroyDone kernel obj.vfio_handle v.addr v.aligned_size t s b handle setup.handled
            setup.connected)
          (Released kernel) _ _
          (destroy_dmamap_ledger kernel obj.vfio_handle v.addr v.aligned_size t s b handle
            setup.handled setup.connected)
          (λ t' (s', b') (same, (granted, answered, e)).
            err_out-Released v ret obj t' s' b' _
              (refused_if_granted granted v.addr v.aligned_size refused answered all) whole
              (e
                ∙ ap (dma_removed granted v.addr v.aligned_size) agrees
                ∙ dma_removed-dmas_if granted v.addr v.aligned_size [] (ledger_of v [] refused))))

  pub err_cleanup_args-Released :
      (v : LoadVars) (ret : ℤ) (handle : ℕ) (obj : AioptObj) (t : VfioTables) (s : S) (b : Ledger)
      → IsSetUp handle obj t
      → IsWhole v
      → IsAt v.addr v.aligned_size
      → (v.with_args ≡ true → IsAt v.args_addr v.args_aligned_size)
      → b ≡ ledger_of v (args_dmas v (dmas_if v.addr v.aligned_size [])) []
      → Returns (Released kernel) (
          err_cleanup_args (ledger_os os) (ledger_kernel kernel) polls reset tpc v ret obj t (s, b))
  unfolding err_cleanup_args
  err_cleanup_args-Released v ret handle obj t s b setup whole mapped args_mapped agrees =
      elim (Bool-cases v.with_args) [
        | inr without ↦ simp (without) (
            err_cleanup_elf-Released v ret handle obj t s b [] (inl refl) setup whole mapped
              (agrees ∙ ap (λ dmas. ledger_of v dmas []) (args_dmas_none v _ without)))
        | inl given ↦
            simp (given, (args_mapped given).0, (args_mapped given).1)
              (Returns-bind
                (DestroyDone kernel obj.vfio_handle v.args_addr v.args_aligned_size t s b handle
                  setup.handled setup.connected)
                (Released kernel) _ _
                (destroy_dmamap_ledger kernel obj.vfio_handle v.args_addr v.args_aligned_size t s b
                  handle setup.handled setup.connected)
                (λ t' (s', b') (same, (granted, answered, e)).
                  err_cleanup_elf-Released v ret handle obj t' s' b' _
                    (refused_if_granted granted v.args_addr v.args_aligned_size [] answered
                      (inl refl))
                    (record {
                      handled = setup.handled;
                      connected = ap (λ g. g.connected) same ∙ setup.connected;
                    })
                    whole mapped
                    (e
                      ∙ ap (dma_removed granted v.args_addr v.args_aligned_size)
                          (agrees ∙ ap (λ dmas. ledger_of v dmas []) (args_dmas_some v _ given))
                      ∙ dma_removed-dmas_if granted v.args_addr v.args_aligned_size
                          (dmas_if v.addr v.aligned_size []) (ledger_of v [] []))))
      ]
