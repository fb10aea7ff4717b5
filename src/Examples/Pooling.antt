-- ===== src/Examples/Pooling.antt =====
-- The pool of queues at concrete jobs.
use async_long_request_proxy.Prelude.{◌≡◌, refl, none, some, List, [], ◌∷◌, map}
use async_long_request_proxy.Result.{ok, replied, refused, reply_lost, perform}
use async_long_request_proxy.Text.{
  units, is_white_space, trim_start, trim_end, split, parse_int, value, span_digits,
}
use async_long_request_proxy.Redis.ClusterNodes.{parse_entry, parse_entries, parse_cluster_nodes}
use async_long_request_proxy.Redis.Connection.{cluster}
use async_long_request_proxy.Config.Connections.{queue_config}
use async_long_request_proxy.Queue.{no_options, dispatch, webhook}
use async_long_request_proxy.Queue.Adapter.{
  QueueConfig, lookup, new_adapter, create_bull_mq_connection, get_queue, enqueue_on,
  on_module_destroy,
}
use async_long_request_proxy.Queue.Adapter.Pool.{
  Enqueueing, below, IsPool, enqueue_all, enqueue_all-destroyed, seen, send_to, enqueue_on-refines,
}
use async_long_request_proxy.Examples.Nodes.{node}
use async_long_request_proxy.Examples.Configuring.{configuration}

abbrev enqueueings : List Enqueueing
enqueueings =
    record {
      queue_name = "executor-dispatch";
      fate = replied;
      job = dispatch "t1" 0;
      options = no_options;
    }
    ∷ record { queue_name = "webhook"; fate = refused; job = webhook "t1"; options = no_options }
    ∷ record {
      queue_name = "executor-dispatch";
      fate = replied;
      job = dispatch "t2" 0;
      options = no_options;
    }
    ∷ []

abbrev bull_mq : QueueConfig
bull_mq = queue_config configuration

connected :
    create_bull_mq_connection bull_mq
    ≡ ok (
        cluster
          (node "a" 7000 ∷ [])
          (record { password = some (units "secret"); db = some 0; max_retries = none }))
unfolding create_bull_mq_connection parse_cluster_nodes parse_entries parse_entry split trim_start
    trim_end is_white_space parse_int span_digits value
connected = refl

enqueue_all-destroyed_example :
    let s = enqueue_all bull_mq enqueueings new_adapter in
    IsPool bull_mq s × ((on_module_destroy s).1.closed ≡ below s.made)
enqueue_all-destroyed_example = enqueue_all-destroyed bull_mq enqueueings

two_made : (enqueue_all bull_mq enqueueings new_adapter).made ≡ 2
unfolding enqueue_all enqueue_on get_queue lookup create_bull_mq_connection parse_cluster_nodes
    parse_entries parse_entry split trim_start trim_end is_white_space parse_int span_digits value
two_made = refl

-- The pool after these jobs, and another job for one of its queues.
enqueue_on-refines_example :
    let s = enqueue_all bull_mq enqueueings new_adapter in
    let after = enqueue_on bull_mq "webhook" reply_lost (webhook "t1") no_options s in
    (after.0, map seen after.1.jobs)
    ≡ perform reply_lost (send_to "webhook" (webhook "t1") no_options) (map seen s.jobs)
enqueue_on-refines_example =
    enqueue_on-refines bull_mq
      (cluster (node "a" 7000 ∷ [])
        (record { password = some (units "secret"); db = some 0; max_retries = none }))
      (record {
        queue_name = "webhook";
        fate = reply_lost;
        job = webhook "t1";
        options = no_options;
      })
      (enqueue_all bull_mq enqueueings new_adapter) connected
      (enqueue_all-destroyed bull_mq enqueueings).0
