-- ===== src/Meta/NodeManager.antt =====
-- src/meta/node_manager.h and node_manager.cpp: the data nodes that registered. Each method holds
-- the manager's mutex, so a method is one step; the clock is an argument. The order of the map is
-- the order in which `std::unordered_map` happens to iterate.
use openfs.Common.{
  ℕ, [], ◌∷◌, ◌+◌, ◌%◌, ◌<◌, ◌≡◌, ◌↔◌, none, some, Bool, true, false, arith, refl, Bool-cases, inl,
  inr, if◌then◌else◌, ◌==◌, u64_mod,
}
use openfs.Common.Map
use openfs.Common.Map.{Map, find-put, find-put_self}
use openfs.Types.{Name}

pub record NodeInfo : Type 0 where
  pub node_id : ℕ
  pub address : Name
  pub capacity : ℕ
  pub used : ℕ
  pub online : Bool
  pub last_heartbeat : ℕ

pub record NodeManager : Type 0 where
  pub nodes : Map NodeInfo
  pub next_node_id : ℕ

abbrev pub empty : NodeManager
empty = record { nodes = []; next_node_id = 1 }

unfoldable pub register_node : NodeManager → Name → ℕ → ℕ → ℕ × NodeManager
register_node m address capacity now =
    let id = m.next_node_id in
    let info : NodeInfo = record {
      node_id = id;
      address = address;
      capacity = capacity;
      used = 0;
      online = true;
      last_heartbeat = now;
    } in
    (id, record { nodes = Map.put id info m.nodes; next_node_id = (id + 1) % u64_mod })

unfoldable pub update_heartbeat : NodeManager → ℕ → ℕ → ℕ → NodeManager
update_heartbeat m node_id used now = elim (Map.find node_id m.nodes) [
  | none ↦ m
  | some info ↦ record m {
    nodes = Map.put node_id (record info { used = used; last_heartbeat = now }) m.nodes;
  }
]

-- The loops of `GetAnyOnlineNode` and `HasOnlineNodes`.
unfoldable pub first_online : Map NodeInfo → ℕ
first_online [] = 0
first_online ((id, info) ∷ nodes) = if info.online then id else first_online nodes

unfoldable pub some_online : Map NodeInfo → Bool
some_online [] = false
some_online ((id, info) ∷ nodes) = if info.online then true else some_online nodes

unfoldable pub get_any_online_node : NodeManager → ℕ
unfolding first_online
get_any_online_node m = first_online m.nodes

unfoldable pub has_online_nodes : NodeManager → Bool
unfolding some_online
has_online_nodes m = some_online m.nodes

-- The keys of the map are node ids, which start at 1.
abbrev pub Positive : Map NodeInfo → Type 0
Positive [] = Unit
Positive ((id, info) ∷ nodes) = (0 < id) × Positive nodes

first_online-pos :
    (nodes : Map NodeInfo) → Positive nodes → (0 < first_online nodes) ↔ (some_online nodes ≡ true)
unfolding first_online some_online
first_online-pos [] p = ground arith
first_online-pos ((id, info) ∷ nodes) p = ground (arith, first_online-pos nodes p.1, p.0)

Positive-put :
    (id : ℕ) (info : NodeInfo) (nodes : Map NodeInfo)
    → 0 < id
    → Positive nodes
    → Positive (Map.put id info nodes)
unfolding Map.put
Positive-put id info [] h p = (h, tt)
Positive-put id info ((j, v) ∷ nodes) h p = elim (Bool-cases (j == id)) [
  | inl same ↦ rw (same, Map.put) (h, p.1)
  | inr other ↦ rw (other, Map.put) (p.0, Positive-put id info nodes h p.1)
]

abbrev pub IsValid : NodeManager → Type 0
IsValid m = (0 < m.next_node_id) × Positive m.nodes

-- When the node ids are positive, GetAnyOnlineNode gives a node, and not 0, exactly when
-- HasOnlineNodes holds.
pub get_any_online_node_iff :
    (m : NodeManager) → IsValid m → (0 < get_any_online_node m) ↔ (has_online_nodes m ≡ true)
unfolding get_any_online_node has_online_nodes
get_any_online_node_iff m v = first_online-pos m.nodes v.1

some_online-put :
    (id : ℕ) (info : NodeInfo) (nodes : Map NodeInfo)
    → info.online ≡ true
    → some_online (Map.put id info nodes) ≡ true
unfolding some_online Map.put
some_online-put id info [] on = ground arith
some_online-put id info ((j, v) ∷ nodes) on = ground (arith, some_online-put id info nodes on)

-- A node that registers gets the next id and can be chosen from then on, and the node ids stay
-- positive, as long as the ids do not wrap.
pub register_node-IsValid :
    (m : NodeManager) (address : Name) (capacity now : ℕ)
    → IsValid m
    → m.next_node_id + 1 < u64_mod
    → IsValid (register_node m address capacity now).1
      × ((register_node m address capacity now).0 ≡ m.next_node_id)
      × (0 < get_any_online_node (register_node m address capacity now).1)
unfolding register_node
register_node-IsValid m address capacity now v room =
    let valid : IsValid (register_node m address capacity now).1 =
      (omega (arith, v.0), Positive-put m.next_node_id _ m.nodes v.0 v.1) in
    (
      valid,
      refl,
      (get_any_online_node_iff (register_node m address capacity now).1 valid).1
          (unfold has_online_nodes in some_online-put m.next_node_id _ m.nodes refl),
    )
