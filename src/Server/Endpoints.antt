-- ===== src/Server/Endpoints.antt =====
-- src/main.rs: the statistics page, and the endpoints of the maps at their concrete types.
use stage.Prelude.{
  ℕ, ◌+◌, ◌/◌, ◌*◌, ◌≡◌, ◌↔◌, refl, subst, sym, Bool, Option, some, List, map, Str, str, length, In,
  In-map, In-of_In-map, str_eq,
}
use stage.DashMap.{DashMap}
use stage.Membership.Types.{NodeId, SocketAddr, Node, alive}
use stage.Membership.Service.{get_alive_members}
use stage.Membership.Nodes.{In-get_alive_members_iff}
use stage.Storage.Protocol.{Request, KeyValueJson}
use stage.Storage.Memory.{Store, local_partition_count, local_entry_count}
use stage.Storage.Handlers.{
  Reply, handle_get_internal, handle_get, handle_forward_put, handle_put, handle_replicate,
  handle_partition_dump,
}
use stage.Executor.Queue.{local_task_count, local_task_status_counts, sum_lengths}
use stage.Executor.Queue
use stage.Executor.Queue.Statistics.{total, total-local_task_status_counts}
use stage.App.{App, Setting}
use stage.Search.Types.{BookMetadata}
use stage.Ingestion.Types.{RawDocument}

pub record NodeInfo : Type 0 where
  pub node_id : Str
  pub gossip_addr : Str
  pub http_addr : Str

-- What `sysinfo` reports; `F` is f32.
pub record System (F : Type 0) : Type 0 where
  pub cpu_usage : F
  pub total_memory : ℕ
  pub used_memory : ℕ

pub record NodeStatsResponse (F : Type 0) : Type 0 where
  pub node_id : Str
  pub gossip_addr : Str
  pub http_addr : Str
  pub alive_nodes : ℕ
  pub nodes : List NodeInfo
  pub books_partitions : ℕ
  pub books_entries : ℕ
  pub datalake_partitions : ℕ
  pub datalake_entries : ℕ
  pub index_partitions : ℕ
  pub index_entries : ℕ
  pub queue_partitions : ℕ
  pub queue_tasks : ℕ
  pub queue_pending : ℕ
  pub queue_running : ℕ
  pub queue_completed : ℕ
  pub queue_failed : ℕ
  pub cpu_usage : F
  pub mem_used_mb : ℕ
  pub mem_total_mb : ℕ

abbrev pub info_of : (SocketAddr → Str) → Node → NodeInfo
info_of show n = record {
  node_id = n.id;
  gossip_addr = show n.gossip_addr;
  http_addr = show n.http_addr;
}

module _ (dm : DashMap) (x : Setting dm) where
  -- `show` is `SocketAddr::to_string`.
  unfoldable pub handle_stats :
      {F : Type 0} → (SocketAddr → Str) → System F → App dm → NodeStatsResponse F
  handle_stats show sys a =
      let nodes = map (info_of show) (get_alive_members dm x.site.membership) in
      let counts = local_task_status_counts dm a.tasks in
      let node = x.site.membership.local_node in
      record {
        node_id = node.id;
        gossip_addr = show node.gossip_addr;
        http_addr = show node.http_addr;
        alive_nodes = length nodes;
        nodes = nodes;
        books_partitions = local_partition_count dm x.formats.books a.books;
        books_entries = local_entry_count dm x.formats.books a.books;
        datalake_partitions = local_partition_count dm x.formats.datalake a.datalake;
        datalake_entries = local_entry_count dm x.formats.datalake a.datalake;
        index_partitions = local_partition_count dm x.formats.index a.index;
        index_entries = local_entry_count dm x.formats.index a.index;
        queue_partitions = Queue.local_partition_count dm a.tasks;
        queue_tasks = local_task_count dm a.tasks;
        queue_pending = counts.n_pending;
        queue_running = counts.n_running;
        queue_completed = counts.n_completed;
        queue_failed = counts.n_failed;
        cpu_usage = sys.cpu_usage;
        mem_used_mb = sys.used_memory / (1024 * 1024);
        mem_total_mb = sys.total_memory / (1024 * 1024);
      }

  -- The statistics page lists exactly the members that are alive, its number of alive nodes is the
  -- number of those it lists, and its four figures of tasks add up to the number of tasks.
  pub handle_stats_lem :
      {F : Type 0} (show : SocketAddr → Str) (sys : System F) (a : App dm)
      → let stats = handle_stats show sys a in
        (stats.alive_nodes ≡ length stats.nodes)
        × (stats.queue_pending + stats.queue_running + stats.queue_completed + stats.queue_failed
            ≡ stats.queue_tasks)
        × ((i : NodeInfo)
            → In i stats.nodes ↔ (
                (k : NodeId) × (n : Node) × (dm.get x.site.membership.members k ≡ some n)
                × (n.state ≡ alive)
                × (i ≡ info_of show n)))
  unfolding handle_stats total
  handle_stats_lem show sys a = (
    refl,
    total-local_task_status_counts dm a.tasks,
    λ i. (
      λ h.
          let (n, there, e) =
            In-of_In-map (info_of show) i (get_alive_members dm x.site.membership) h in
          let (k, found, up) = (In-get_alive_members_iff dm x.site.membership n).0 there in
          (k, n, found, up, e),
      λ (k, n, found, up, e).
          subst (λ j. In j (map (info_of show) (get_alive_members dm x.site.membership))) (sym e)
            (In-map (info_of show) n (get_alive_members dm x.site.membership)
              ((In-get_alive_members_iff dm x.site.membership n).1 (k, found, up))),
    ),
  )

  -- The map under `/books`.
  abbrev pub handle_get_internal_book : Store dm Str BookMetadata → Str → Reply (Option Str)
  handle_get_internal_book = handle_get_internal dm x.formats.books x.site (str "/books") x.wire

  abbrev pub handle_get_book :
      Str
      → Store dm Str BookMetadata × List Request
      → Reply (Option Str) × (Store dm Str BookMetadata × List Request)
  handle_get_book = handle_get dm x.formats.books x.site (str "/books") x.wire

  abbrev pub handle_forward_put_book :
      ℕ
      → ℕ
      → Str
      → Str
      → Str
      → Store dm Str BookMetadata × List Request
      → Reply Bool × (Store dm Str BookMetadata × List Request)
  handle_forward_put_book = handle_forward_put dm x.formats.books x.site (str "/books") x.wire

  abbrev pub handle_put_book :
      ℕ
      → Str
      → Str
      → Str
      → Store dm Str BookMetadata × List Request
      → Reply Bool × (Store dm Str BookMetadata × List Request)
  handle_put_book = handle_put dm x.formats.books x.site (str "/books") x.wire

  abbrev pub handle_replicate_book :
      ℕ → ℕ → Str → Str → Str → Store dm Str BookMetadata → Reply Bool × Store dm Str BookMetadata
  handle_replicate_book = handle_replicate dm x.formats.books

  abbrev pub handle_partition_dump_book : Store dm Str BookMetadata → ℕ → Reply (List KeyValueJson)
  handle_partition_dump_book = handle_partition_dump dm x.formats.books

  -- The map under `/datalake`.
  abbrev pub handle_get_internal_datalake : Store dm Str RawDocument → Str → Reply (Option Str)
  handle_get_internal_datalake =
      handle_get_internal dm x.formats.datalake x.site (str "/datalake") x.wire

  abbrev pub handle_get_datalake :
      Str
      → Store dm Str RawDocument × List Request
      → Reply (Option Str) × (Store dm Str RawDocument × List Request)
  handle_get_datalake = handle_get dm x.formats.datalake x.site (str "/datalake") x.wire

  abbrev pub handle_forward_put_datalake :
      ℕ
      → ℕ
      → Str
      → Str
      → Str
      → Store dm Str RawDocument × List Request
      → Reply Bool × (Store dm Str RawDocument × List Request)
  handle_forward_put_datalake =
      handle_forward_put dm x.formats.datalake x.site (str "/datalake") x.wire

  abbrev pub handle_put_datalake :
      ℕ
      → Str
      → Str
      → Str
      → Store dm Str RawDocument × List Request
      → Reply Bool × (Store dm Str RawDocument × List Request)
  handle_put_datalake = handle_put dm x.formats.datalake x.site (str "/datalake") x.wire

  abbrev pub handle_replicate_datalake :
      ℕ → ℕ → Str → Str → Str → Store dm Str RawDocument → Reply Bool × Store dm Str RawDocument
  handle_replicate_datalake = handle_replicate dm x.formats.datalake

  abbrev pub handle_partition_dump_datalake :
      Store dm Str RawDocument → ℕ → Reply (List KeyValueJson)
  handle_partition_dump_datalake = handle_partition_dump dm x.formats.datalake

  -- The map under `/index`.
  abbrev pub handle_get_internal_index : Store dm Str (List Str) → Str → Reply (Option Str)
  handle_get_internal_index = handle_get_internal dm x.formats.index x.site (str "/index") x.wire

  abbrev pub handle_get_index :
      Str
      → Store dm Str (List Str) × List Request
      → Reply (Option Str) × (Store dm Str (List Str) × List Request)
  handle_get_index = handle_get dm x.formats.index x.site (str "/index") x.wire

  abbrev pub handle_forward_put_index :
      ℕ
      → ℕ
      → Str
      → Str
      → Str
      → Store dm Str (List Str) × List Request
      → Reply Bool × (Store dm Str (List Str) × List Request)
  handle_forward_put_index = handle_forward_put dm x.formats.index x.site (str "/index") x.wire

  abbrev pub handle_put_index :
      ℕ
      → Str
      → Str
      → Str
      → Store dm Str (List Str) × List Request
      → Reply Bool × (Store dm Str (List Str) × List Request)
  handle_put_index = handle_put dm x.formats.index x.site (str "/index") x.wire

  abbrev pub handle_replicate_index :
      ℕ → ℕ → Str → Str → Str → Store dm Str (List Str) → Reply Bool × Store dm Str (List Str)
  handle_replicate_index = handle_replicate dm x.formats.index

  abbrev pub handle_partition_dump_index : Store dm Str (List Str) → ℕ → Reply (List KeyValueJson)
  handle_partition_dump_index = handle_partition_dump dm x.formats.index
