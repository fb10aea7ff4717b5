-- ===== src/Redis/Scan/Complete.antt =====
-- A scan collects every page of every server.
use mathlib.Core.List.{append-nil, append_assoc}
use async_long_request_proxy.Prelude.{
  ℕ, zero, suc, ◌≤◌, String, ◌≡◌, refl, ap, ◌∙◌, Bool, true, false, some, List, [], ◌∷◌, ◌++◌, map,
  ◌==◌, length, if◌then◌else◌, arith,
}
use async_long_request_proxy.Redis.Scan.{
  Scan, scan_from, scan_single_keys, scan_cluster_keys, scan_keys,
}

-- A full iteration of a server from a cursor on, with its pages.
pub data IsIteration (scan : Scan) : String → List (List String) → Type 0 where
  last : {c : String} {page : List String} → scan c ≡ ("0", page) → IsIteration scan c (page ∷ [])
  more :
      {c next : String} {page : List String} {pages : List (List String)}
      → scan c ≡ (next, page)
      → (next == "0") ≡ false
      → IsIteration scan next pages
      → IsIteration scan c (page ∷ pages)

abbrev pub flat : List (List String) → List String
flat [] = []
flat (page ∷ pages) = page ++ flat pages

scan_from-flat :
    {scan : Scan} {c : String} {pages : List (List String)} (fuel : ℕ) (keys : List String)
    → IsIteration scan c pages
    → length pages ≤ fuel
    → scan_from fuel scan c keys ≡ some (keys ++ flat pages)
unfolding scan_from
scan_from-flat zero keys (last e) h = absurd (omega arith)
scan_from-flat zero keys (more e n i) h = absurd (omega arith)
scan_from-flat (suc fuel) keys (last {c} {page} e) h = rw (e, append-nil) refl
scan_from-flat (suc fuel) keys (more {c} {next} {page} {pages} e n i) h =
    rw (e, n)
      (scan_from-flat fuel (keys ++ page) i (omega (arith, h))
        ∙ ap some (append_assoc keys page (flat pages)))

-- Each server goes through its pages in full, within the fuel.
abbrev pub IsCovered : ℕ → List Scan → List (List (List String)) → Type 0
IsCovered fuel [] [] = Unit
IsCovered fuel (scan ∷ scans) (pages ∷ rest) =
    IsIteration scan "0" pages × (length pages ≤ fuel) × IsCovered fuel scans rest
IsCovered fuel _ _ = ⊥

scan_cluster_keys-flat :
    (fuel : ℕ) (scans : List Scan) (pages : List (List (List String)))
    → IsCovered fuel scans pages
    → scan_cluster_keys fuel scans ≡ some (flat (map flat pages))
unfolding scan_cluster_keys scan_single_keys
scan_cluster_keys-flat fuel [] [] h = refl
scan_cluster_keys-flat fuel [] (p ∷ ps) h = elim h [ ]
scan_cluster_keys-flat fuel (s ∷ ss) [] h = elim h [ ]
scan_cluster_keys-flat fuel (s ∷ ss) (p ∷ ps) h =
    rw (scan_from-flat fuel [] h.0 h.1, scan_cluster_keys-flat fuel ss ps h.2) refl

-- The servers that are asked are all masters of a cluster, or the one server. If each comes back
-- to the cursor "0" after some pages, and the fuel is no less than their number for any server,
-- the scan ends with all keys of all pages, in the order of the servers and of their pages.
pub scan_keys-flat :
    (fuel : ℕ) (is_cluster : Bool) (single : Scan) (masters : List Scan)
    (pages : List (List (List String)))
    → IsCovered fuel (if is_cluster then masters else single ∷ []) pages
    → scan_keys fuel is_cluster single masters ≡ some (flat (map flat pages))
unfolding scan_keys scan_single_keys
scan_keys-flat fuel true single masters pages h = scan_cluster_keys-flat fuel masters pages h
scan_keys-flat fuel false single masters [] h = elim h [ ]
scan_keys-flat fuel false single masters (p ∷ []) h = rw append-nil (scan_from-flat fuel [] h.0 h.1)
scan_keys-flat fuel false single masters (p ∷ q ∷ ps) h = elim h.2 [ ]
