-- ===== src/Cluster/Redis/Nodes.antt =====
-- The nodes that Redis lists become the nodes of the member.
use common_tools.Prelude.{
  ◌≡◌, refl, not, ◌&&◌, ◌||◌, List, [], ◌∷◌, String, str_eq, eq_iff, contains, arith,
}
use common_tools.Cluster.State.{Cluster, get_my_name}
use common_tools.Cluster.Redis.{add_nodes, keep_nodes, drop_gone, update_nodes_from_redis}

contains-add_nodes :
    (x : String) (new known : List String)
    → contains x (add_nodes new known) ≡ (contains x known || contains x new)
unfolding contains
contains-add_nodes x [] known = ground arith
contains-add_nodes x (n ∷ ns) known =
    ground (arith, contains-add_nodes x ns known, contains-add_nodes x ns (n ∷ known), eq_iff n x)

contains-keep_nodes :
    (x me : String) (new all : List String)
    → contains x (keep_nodes me new all) ≡ (contains x all && (str_eq x me || contains x new))
unfolding contains
contains-keep_nodes x me new [] = refl
contains-keep_nodes x me new (n ∷ ns) = ground (arith, contains-keep_nodes x me new ns, eq_iff n x)

contains-drop_gone :
    (x me : String) (new all alive : List String)
    → contains x (drop_gone me new all alive)
      ≡ (contains x alive && (not (contains x all) || (str_eq x me || contains x new)))
unfolding contains
contains-drop_gone x me new all [] = refl
contains-drop_gone x me new all (n ∷ ns) =
    ground (arith, contains-drop_gone x me new all ns, eq_iff n x)

-- After the nodes of Redis are taken over, the member knows just these nodes, and itself if it knew itself before.
-- Of its alive nodes just those are gone that it knew and that are neither itself nor among the new ones.
pub update_nodes_from_redis_lem :
    (new : List String) (c : Cluster) (x : String)
    → let d = update_nodes_from_redis new c in
      (contains x d.all_node
        ≡ (contains x new || (contains x c.all_node && str_eq x (get_my_name c))))
      × (contains x d.alive_nodes ≡ (
          contains x c.alive_nodes
          && (not (contains x c.all_node) || (str_eq x (get_my_name c) || contains x new))))
unfolding update_nodes_from_redis
update_nodes_from_redis_lem new c x =
    let all = add_nodes new c.all_node in
    ground (
      arith,
      contains-add_nodes x new c.all_node,
      contains-keep_nodes x (get_my_name c) new all,
      contains-drop_gone x (get_my_name c) new all c.alive_nodes,
    )
