-- ===== src/Store/Node/Show.antt =====
-- store/node.go and store/node_extern.go: a node as it is shown outside.
use etcd.Prelude.{ℕ, Bool, true, false, not, none, some, if◌then◌else◌, Result, ok, panic, ◌>>=◌}
use etcd.Prelude.Names.{text_less}
use etcd.Store.Event.{NodeExtern, NodeExterns, Shown, no_nodes, extern}
use etcd.Store.Node.{Node, kv, dir, Children, childless, child, is_hidden, expiration_and_ttl}

-- `sort.Sort` by the key: the keys of the children of a node differ.
abbrev insert_sorted : Shown → NodeExterns → NodeExterns → NodeExterns
insert_sorted s ns no_nodes = extern s ns no_nodes
insert_sorted s ns (extern t ms rest) =
    if text_less t.key s.key
    then extern t ms (insert_sorted s ns rest)
    else extern s ns (extern t ms rest)

unfoldable pub sort : NodeExterns → NodeExterns
sort no_nodes = no_nodes
sort (extern s ns rest) = insert_sorted s ns (sort rest)

-- What a node shows, the nodes below it left aside.
unfoldable pub show : ℕ → Node → Shown
unfolding expiration_and_ttl
show now (kv f) = record {
  key = f.path;
  value = some f.value;
  dir = false;
  expiration = (expiration_and_ttl now (kv f)).0;
  ttl = (expiration_and_ttl now (kv f)).1;
  modified_index = f.modified_index;
  created_index = f.created_index;
}
show now (dir f cs) = record {
  key = f.path;
  value = none;
  dir = true;
  expiration = (expiration_and_ttl now (dir f cs)).0;
  ttl = (expiration_and_ttl now (dir f cs)).1;
  modified_index = f.modified_index;
  created_index = f.created_index;
}

unfoldable mutual
  unfolding show sort

  pub repr : ℕ → Bool → Bool → Node → Result NodeExtern
  repr now recursive sorted (kv f) = ok (record { shown = show now (kv f); nodes = no_nodes })
  repr now recursive sorted (dir f cs) =
      let listed = repr_children now recursive sorted cs in
      if not recursive then ok (record { shown = show now (dir f cs); nodes = no_nodes }) else (do
        ns ← listed
        ok (record { shown = show now (dir f cs); nodes = if sorted then sort ns else ns }))

  -- The children that are not hidden.
  pub repr_children : ℕ → Bool → Bool → Children → Result NodeExterns
  repr_children now recursive sorted childless = ok no_nodes
  repr_children now recursive sorted (child key n cs) =
      let this = repr now recursive sorted n in
      let rest = repr_children now recursive sorted cs in
      elim (is_hidden n) [
        | panic p ↦ panic p
        | ok true ↦ rest
        | ok false ↦ (do x ← this; xs ← rest; ok (extern x.shown x.nodes xs))
      ]

unfoldable pub load_internal_node : ℕ → NodeExtern → Node → Bool → Bool → Result NodeExtern
unfolding expiration_and_ttl repr sort
load_internal_node now e (kv f) recursive sorted =
    let times = expiration_and_ttl now (kv f) in
    ok (record e {
      shown = record e.shown { value = some f.value; expiration = times.0; ttl = times.1 };
    })
load_internal_node now e (dir f cs) recursive sorted =
    let times = expiration_and_ttl now (dir f cs) in
    (do
      ns ← repr_children now recursive sorted cs
      ok (record {
        shown = record e.shown { dir = true; expiration = times.0; ttl = times.1 };
        nodes = if sorted then sort ns else ns;
      }))
