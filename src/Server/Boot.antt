-- ===== src/Server/Boot.antt =====
-- src/main.rs, `main`: from the command line and the environment to a node that has nothing yet.
pub mod FirstBook
pub mod Onward
use stage.Prelude.{
  ℕ, ◌+◌, ◌*◌, ◌%◌, min, max, ◌≡◌, refl, ap, sym, ◌∙◌, subst, Option, none, some, List, [], ◌∷◌,
  Str, str, str_eq, nat_eq, length, In, inl, inr, ==_refl, get_elem?, if◌then◌else◌, ◌==◌, arith,
  Option-cases,
}
use stage.DashMap.{DashMap, get-empty}
use stage.Text.{parse_usize}
use stage.Membership.Types.{NodeId, SocketAddr, Node, alive, Codec, state_eq}
use stage.Membership.Service.{Service, Datagram, new, local_node_of, send_joins, get_alive_members}
use stage.Storage.Partitioner.{
  Hasher, new_with_replication, alive_ids, is_first, get_partition, my_primary_partitions,
  get_owners, owners_among, ring,
}
use stage.Storage.Partitioner.Owners.{get_partition-lt}
use stage.Storage.Partitioner.Primary.{In-my_primary_partitions_iff}
use stage.Storage.Sort.{sort_ids}
use stage.Storage.Memory.{Store}
use stage.Site.{Site, IsAlone, partition_of}
use stage.App.{App}
use stage.Server.Args.{
  Startup, usage, out_of_bounds, bad_address, bind_required, starts, parse_args,
}

-- `std::env::var(…).ok().and_then(|value| value.parse::<usize>().ok()).unwrap_or(default)`
unfoldable pub usize_or : ℕ → Option Str → ℕ
usize_or default none = default
usize_or default (some value) = elim (parse_usize value) [ none ↦ default | some n ↦ n ]

-- `REPLICATION_FACTOR`
unfoldable pub replication_factor : (Str → Option Str) → ℕ
unfolding usize_or
replication_factor env = usize_or 2 (env (str "REPLICATION_FACTOR"))

-- `MAX_BODY_BYTES`, 20 MB where it is not given.
unfoldable pub max_body_bytes : (Str → Option Str) → ℕ
unfolding usize_or
max_body_bytes env = usize_or (20 * 1024 * 1024) (env (str "MAX_BODY_BYTES"))

module _ (dm : DashMap) where
  -- `new_with_base`: the local data and the processed operations are empty.
  abbrev pub new_with_base : {K V : Type 0} → Store dm K V
  new_with_base = record { local_data = dm.empty; processed_ops = dm.empty }

  -- The three maps and the queue as `main` makes them.
  abbrev pub empty_node : App dm
  empty_node = record {
    books = new_with_base;
    datalake = new_with_base;
    index = new_with_base;
    tasks = dm.empty;
    task_log = [];
  }

  -- `MembershipService::new` where the command line asks for a node.
  unfoldable pub join_cluster : Codec → NodeId → ℕ → Startup → Option (Service dm × List Datagram)
  unfolding new
  join_cluster c id now (starts bind_addr seed_nodes) = new dm c id bind_addr now seed_nodes
  join_cluster c id now usage = none
  join_cluster c id now out_of_bounds = none
  join_cluster c id now bad_address = none
  join_cluster c id now bind_required = none

  -- The partition manager, the maps and the queue on top of the membership.
  unfoldable pub set_up :
      Hasher
      → (Str → Option Str)
      → Option (Service dm × List Datagram)
      → Option (Site dm × (App dm × List Datagram))
  unfolding replication_factor
  set_up hash env none = none
  set_up hash env (some (membership, sent)) = some (
    record {
      membership = membership;
      partitioner = new_with_replication (replication_factor env);
      hash = hash;
    },
    (empty_node, sent),
  )

  -- The node that `main` sets up and the joins that it sends; the identifier and the time are
  -- drawn by the caller, and the socket is bound.
  unfoldable pub boot :
      Codec
      → Hasher
      → (Str → Option SocketAddr)
      → (Str → Option Str)
      → NodeId
      → ℕ
      → List Str
      → Option (Site dm × (App dm × List Datagram))
  unfolding join_cluster set_up
  boot c hash parse env id now args =
      set_up hash env (join_cluster c id now (parse_args parse args))

  -- A list of one element that holds an element holds only that.
  only_one : {A : Type 0} (a : A) (l : List A) → length l ≡ 1 → In a l → l ≡ a ∷ []
  only_one a [] h i = elim i [ ]
  only_one a (b ∷ []) h (inl same) = ap (λ c. c ∷ []) (sym same)
  only_one a (b ∷ []) h (inr i) = elim i [ ]
  only_one a (b ∷ c ∷ l) h i = absurd (ground (arith, h))

  entries-insert-empty :
      (id : NodeId) (n : Node) → dm.entries (dm.insert dm.empty id n) ≡ (id, n) ∷ []
  entries-insert-empty id n =
      let m : dm.Map NodeId Node = dm.insert dm.empty id n in
      only_one (id, n) (dm.entries m)
        (dm.length-entries-insert dm.empty id n
          ∙ rw (get-empty dm {V = Node} id, dm.entries-empty) refl)
        ((dm.In-entries m id n).1 (dm.get-insert dm.empty id n id ∙ rw (==_refl id) refl))

  -- The local node is alive and the only member that it knows of.
  abbrev pub IsFounder : Service dm → Type 0
  IsFounder s =
      (s.members ≡ dm.insert dm.empty s.local_node.id s.local_node) × (s.local_node.state ≡ alive)

  alive_ids_founder : (s : Service dm) → IsFounder s → alive_ids dm s ≡ s.local_node.id ∷ []
  unfolding get_alive_members
  alive_ids_founder s (only, up) =
      rw (only, entries-insert-empty s.local_node.id s.local_node, up) refl

  founder_owns :
      (factor p : ℕ) (s : Service dm)
      → IsFounder s
      → get_owners dm (new_with_replication factor) s p ≡ s.local_node.id ∷ []
  unfolding get_owners owners_among ring sort_ids new_with_replication
  founder_owns factor p s founder =
      let here : (p % 1 + 0) % 1 ≡ 0 = omega arith in
      let one : min (max factor 1) 1 ≡ 1 = ground arith in
      rw (alive_ids_founder s founder, one, here) refl

  Founds : Option (Service dm × List Datagram) → Type 0
  Founds none = Unit
  Founds (some (s, sent)) = IsFounder s

  new-Founds :
      (c : Codec) (id : NodeId) (bind_addr : SocketAddr) (now : ℕ) (seeds : List SocketAddr)
      → Founds (new dm c id bind_addr now seeds)
  unfolding new local_node_of Founds
  new-Founds c id bind_addr now seeds =
      elim (Option-cases (send_joins c (local_node_of dm id bind_addr now) seeds)) [
        | inl e ↦ rw (e, new) tt
        | inr (l, e) ↦ rw (e, new) (refl, refl)
      ]

  -- What a start comes to where there is one.
  Starts : (Str → Option Str) → Option (Site dm × (App dm × List Datagram)) → Type 0
  Starts env none = Unit
  Starts env (some (site, (a, sent))) =
      IsFounder site.membership
      × (site.partitioner ≡ new_with_replication (replication_factor env))
      × (a ≡ empty_node)

  join_cluster-Founds :
      (c : Codec) (id : NodeId) (now : ℕ) (o : Startup) → Founds (join_cluster c id now o)
  unfolding join_cluster Founds
  join_cluster-Founds c id now (starts bind_addr seed_nodes) =
      new-Founds c id bind_addr now seed_nodes
  join_cluster-Founds c id now usage = tt
  join_cluster-Founds c id now out_of_bounds = tt
  join_cluster-Founds c id now bad_address = tt
  join_cluster-Founds c id now bind_required = tt

  set_up-Starts :
      (hash : Hasher) (env : Str → Option Str) (o : Option (Service dm × List Datagram))
      → Founds o
      → Starts env (set_up hash env o)
  unfolding set_up Founds Starts
  set_up-Starts hash env none founds = tt
  set_up-Starts hash env (some (membership, sent)) founder = (founder, refl, refl)

  module _ (c : Codec) (hash : Hasher) (parse : Str → Option SocketAddr) (env : Str → Option Str)
      (id : NodeId) (now : ℕ) (args : List Str) (site : Site dm) (a : App dm) (sent : List Datagram)
      (started : boot c hash parse env id now args ≡ some (site, (a, sent))) where
    boot_lem : Starts env (some (site, (a, sent)))
    unfolding boot
    boot_lem = subst (Starts env) started (
        set_up-Starts hash env (join_cluster c id now (parse_args parse args))
          (join_cluster-Founds c id now (parse_args parse args)))

    -- A node starts with nothing.
    pub boot_empty : a ≡ empty_node
    unfolding Starts
    boot_empty = boot_lem.2

    -- Its partitions are those of `new_with_replication`.
    pub boot_partitioner : site.partitioner ≡ new_with_replication (replication_factor env)
    unfolding Starts
    boot_partitioner = boot_lem.1

    -- A node that has just started owns every partition, and is the only owner.
    pub boot-IsAlone : IsAlone dm site
    unfolding Starts
    boot-IsAlone p =
        rw boot_partitioner (founder_owns (replication_factor env) p site.membership boot_lem.0)

    -- It is the primary of the partition of every key.
    pub boot_primary :
        (key : Str)
        → In (partition_of dm site key) (my_primary_partitions dm site.partitioner site.membership)
    unfolding Starts is_first
    boot_primary key =
        let f = replication_factor env in
        rw boot_partitioner (
          (In-my_primary_partitions_iff dm f site.membership
              (get_partition site.hash (new_with_replication f) key)).1
            (
              rw
                  (founder_owns f (get_partition site.hash (new_with_replication f) key)
                    site.membership boot_lem.0)
                  (==_refl site.membership.local_node.id),
              get_partition-lt site.hash f key,
            ))
