-- ===== src/Redis/ClusterNodes/Printed.antt =====
-- A list of nodes is read back from its text.
use mathlib.Core.List.{cons-ne-nil}
use async_long_request_proxy.Prelude.{
  ℕ, ◌≤◌, ◌≡◌, ◌≢◌, refl, sym, ap, ◌∙◌, true, false, List, [], ◌∷◌, ◌++◌, map, nat_eq, some, All,
  All-append, arith,
}
use async_long_request_proxy.Result.{ok}
use async_long_request_proxy.Text.{Text, is_white_space, trim, split, to_text, parse_int}
use async_long_request_proxy.Text.Digits.{IsDigit, to_text-IsDigit, to_text-cons, parse_int-to_text}
use async_long_request_proxy.Text.Parts.{Lacks, IsWhite, IsDense, join, split-join, trim_around}
use async_long_request_proxy.Redis.ClusterNodes.{
  ClusterNode, port_of, node_of, parse_entry, parse_entries, parse_cluster_nodes,
}

-- A node that can be written down: its host has characters, and among them neither a comma, nor a
-- colon, nor white space.
pub record IsPrintable (n : ClusterNode) : Type 0 where
  pub host_some : n.host ≢ []
  pub host_comma : Lacks b',' n.host
  pub host_colon : Lacks b':' n.host
  pub host_dense : IsDense n.host
  pub port_low : 1 ≤ n.port
  pub port_high : n.port ≤ 65535

-- host:port
abbrev pub print_node : ClusterNode → Text
print_node n = join b':' n.host (to_text n.port ∷ [])

-- A node with the white space around it.
pub record Entry : Type 0 where
  pub before : Text
  pub node : ClusterNode
  pub after : Text

pub record IsEntry (e : Entry) : Type 0 where
  pub before_white : IsWhite e.before
  pub node_printable : IsPrintable e.node
  pub after_white : IsWhite e.after

abbrev pub print_entry : Entry → Text
print_entry e = e.before ++ (print_node e.node ++ e.after)

All-mono :
    {A : Type 0} (P Q : A → Type 0) → ((a : A) → P a → Q a) → (xs : List A) → All P xs → All Q xs
All-mono P Q f [] h = tt
All-mono P Q f (x ∷ xs) h = (f x h.0, All-mono P Q f xs h.1)

IsDigit-Lacks : (c : ℕ) → IsDigit c → (nat_eq c b',' ≡ false) × (nat_eq c b':' ≡ false)
IsDigit-Lacks c h = ground (arith, h)

IsDigit-IsDense : (c : ℕ) → IsDigit c → is_white_space c ≡ false
unfolding is_white_space
IsDigit-IsDense c h = ground (arith, h)

white_no_comma : (c : ℕ) → is_white_space c ≡ true → nat_eq c b',' ≡ false
unfolding is_white_space
white_no_comma c h = ground (arith, h)

print_node-IsDense : (n : ClusterNode) → IsPrintable n → IsDense (print_node n)
print_node-IsDense n h = All-append _ n.host (b':' ∷ to_text n.port) h.host_dense (
  unfold is_white_space in refl,
  All-mono IsDigit _ IsDigit-IsDense (to_text n.port) (to_text-IsDigit n.port),
)

port_of-to_text :
    (n : ℕ) → port_of (to_text n ∷ []) ≡ some (record { is_negative = false; magnitude = n })
port_of-to_text n =
    let (d, ds, e) = to_text-cons n in rw e (ap parse_int (sym e) ∙ parse_int-to_text n)

split-print_node :
    (n : ClusterNode) → IsPrintable n → split b':' (print_node n) ≡ n.host ∷ to_text n.port ∷ []
split-print_node n h =
    let digits = All-mono IsDigit _ (λ c d. (IsDigit-Lacks c d).1) _ (to_text-IsDigit n.port) in
    split-join b':' n.host (to_text n.port ∷ []) (h.host_colon, (digits, tt))

colon_some : (s t : Text) → s ++ b':' ∷ t ≢ []
colon_some [] t = cons-ne-nil b':' t
colon_some (c ∷ s) t = cons-ne-nil c (s ++ b':' ∷ t)

trim-print_entry : (e : Entry) → IsEntry e → trim (print_entry e) ≡ print_node e.node
trim-print_entry e h =
    trim_around e.before (print_node e.node) e.after h.before_white
      (colon_some e.node.host (to_text e.node.port)) (print_node-IsDense e.node h.node_printable)
      h.after_white

node_of-printed :
    (entry host : Text) (port : ℕ)
    → host ≢ []
    → 1 ≤ port
    → port ≤ 65535
    → node_of entry (host ∷ to_text port ∷ []) ≡ ok (record { host = host; port = port })
node_of-printed entry [] port ne low high = absurd (ne refl)
node_of-printed entry (c ∷ s) port ne low high =
    rw (port_of-to_text port) (ground (arith, low, high))

parse_entry-print_entry : (e : Entry) → IsEntry e → parse_entry (print_entry e) ≡ ok e.node
unfolding parse_entry
parse_entry-print_entry e h =
    rw (trim-print_entry e h, split-print_node e.node h.node_printable)
      (node_of-printed (print_node e.node) e.node.host e.node.port h.node_printable.host_some
        h.node_printable.port_low h.node_printable.port_high)

print_entry-Lacks : (e : Entry) → IsEntry e → Lacks b',' (print_entry e)
print_entry-Lacks e h =
    let digits =
      All-mono IsDigit _ (λ c d. (IsDigit-Lacks c d).0) _ (to_text-IsDigit e.node.port) in
    let white =
      λ (w : Text) (k : IsWhite w). All-mono _ (λ c. nat_eq c b',' ≡ false) white_no_comma w k in
    All-append _ e.before (print_node e.node ++ e.after) (white e.before h.before_white) (
      All-append _ (print_node e.node) e.after
        (All-append _ e.node.host (b':' ∷ to_text e.node.port) h.node_printable.host_comma
          (refl, digits))
        (white e.after h.after_white))

All-map-Lacks : (es : List Entry) → All IsEntry es → All (Lacks b',') (map print_entry es)
All-map-Lacks [] h = tt
All-map-Lacks (e ∷ es) h = (print_entry-Lacks e h.0, All-map-Lacks es h.1)

parse_entries-print :
    (es : List Entry)
    → All IsEntry es
    → parse_entries (map print_entry es) ≡ ok (map (λ e. e.node) es)
unfolding parse_entries
parse_entries-print [] h = refl
parse_entries-print (e ∷ es) h = rw (parse_entry-print_entry e h.0, parse_entries-print es h.1) refl

-- Writing nodes as host:port with commas between them, and any white space around each, gives a
-- text from which the same nodes are read back, if no host is empty or has a comma, a colon or
-- white space in it, and each port is between 1 and 65535.
pub parse-print :
    (e : Entry) (es : List Entry)
    → All IsEntry (e ∷ es)
    → parse_cluster_nodes (join b',' (print_entry e) (map print_entry es))
      ≡ ok (map (λ e. e.node) (e ∷ es))
unfolding parse_cluster_nodes
parse-print e es h =
    ap parse_entries
      (split-join b',' (print_entry e) (map print_entry es) (All-map-Lacks (e ∷ es) h))
    ∙ parse_entries-print (e ∷ es) h
