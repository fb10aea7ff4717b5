-- ===== src/Redis/ClusterNodes/Valid.antt =====
-- What `parseClusterNodes` accepts.
use mathlib.Core.Path.{subst}
use mathlib.Core.List.{cons-ne-nil}
use async_long_request_proxy.Prelude.{
  ℕ, suc, ◌≤◌, ◌≡◌, ◌≢◌, refl, ap, ◌∙◌, false, Option, none, some, List, [], ◌∷◌, nat_eq, length,
  All, if◌then◌else◌, arith, Bool-cases, inl, inr,
}
use async_long_request_proxy.Result.{Result, ok, err}
use async_long_request_proxy.Text.{Text, Signed, trim, longer, split}
use async_long_request_proxy.Redis.ClusterNodes.{
  ClusterNode, port_of, is_bad_port, port_number, node_of, parse_entry, and_nodes, parse_entries,
  parse_cluster_nodes,
}

abbrev pub IsNode : ClusterNode → Type 0
IsNode n = (n.host ≢ []) × (1 ≤ n.port) × (n.port ≤ 65535)

abbrev pub commas : Text → ℕ
commas [] = 0
commas (c ∷ s) = let n = commas s in if nat_eq c b',' then suc n else n

-- A property of the value, if there is one.
abbrev Accepted : {A : Type 0} → (A → Type 0) → Result A → Type 0
Accepted P (ok a) = P a
Accepted P (err e) = Unit

good_port :
    (p : Option Signed) → is_bad_port p ≡ false → (1 ≤ port_number p) × (port_number p ≤ 65535)
good_port none h = cc
good_port (some n) h = ground (arith, h)

node_of-Accepted : (entry : Text) (ts : List Text) → Accepted IsNode (node_of entry ts)
node_of-Accepted entry [] = tt
node_of-Accepted entry ([] ∷ rest) = tt
node_of-Accepted entry ((c ∷ host) ∷ rest) = elim (Bool-cases (is_bad_port (port_of rest))) [
  | inl b ↦ rw b tt
  | inr b ↦ let (low, high) = good_port (port_of rest) b in rw b (cons-ne-nil c host, low, high)
]

abbrev IsNodes : ℕ → List ClusterNode → Type 0
IsNodes n nodes = All IsNode nodes × (length nodes ≡ n)

and_nodes-Accepted :
    (n : ℕ) (r : Result ClusterNode) (rs : Result (List ClusterNode))
    → Accepted IsNode r
    → Accepted (IsNodes n) rs
    → Accepted (IsNodes (suc n)) (and_nodes r rs)
and_nodes-Accepted n (err e) rs h k = tt
and_nodes-Accepted n (ok node) (err e) h k = tt
and_nodes-Accepted n (ok node) (ok nodes) h k = ((h, k.0), ap suc k.1)

parse_entries-Accepted : (ts : List Text) → Accepted (IsNodes (length ts)) (parse_entries ts)
unfolding parse_entries
parse_entries-Accepted [] = (tt, refl)
parse_entries-Accepted (t ∷ ts) =
    and_nodes-Accepted (length ts) (parse_entry t) (parse_entries ts)
      (unfold parse_entry in node_of-Accepted (trim t) (split b':' (trim t)))
      (parse_entries-Accepted ts)

length-longer : (c n : ℕ) (ts : List Text) → length ts ≡ suc n → length (longer c ts) ≡ suc n
length-longer c n [] h = cc
length-longer c n (t ∷ ts) h = h

length-split : (s : Text) → length (split b',' s) ≡ suc (commas s)
unfolding split
length-split [] = refl
length-split (c ∷ s) = elim (Bool-cases (nat_eq c b',')) [
  | inl b ↦ rw b (ap suc (length-split s))
  | inr b ↦ rw b (length-longer c (commas s) (split b',' s) (length-split s))
]

-- If a text is accepted, it gives one node more than it has commas, so at least one; each has a
-- host that is not empty and a port between 1 and 65535.
pub parse_cluster_nodes-IsNode :
    (raw : Text) (nodes : List ClusterNode)
    → parse_cluster_nodes raw ≡ ok nodes
    → All IsNode nodes × (length nodes ≡ suc (commas raw))
unfolding parse_cluster_nodes
parse_cluster_nodes-IsNode raw nodes h =
    let (valid, count) =
      subst (Accepted (IsNodes (length (split b',' raw)))) h
        (parse_entries-Accepted (split b',' raw)) in
    (valid, count ∙ length-split raw)
