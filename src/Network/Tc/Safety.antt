-- ===== src/Network/Tc/Safety.antt =====
-- What `startNet` of exec/network/tc/network_tc.go leaves behind when it fails, and `stopNet`.
mod Stages
mod Excluded
pub use Stages.{delete_root, add_root, EndsBy, Restored}
pub use Excluded.{HasPorts}
use chaosblade_exec_os.Prelude.{
  ◌≡◌, refl, String, List, [], ◌∷◌, Option, none, some, true, false, ◌⊎◌, inl, inr, All, Bool-cases,
  arith,
}
use chaosblade_exec_os.Prelude.Result.{Result, ok, err}
use chaosblade_exec_os.Ports.Ranges.{PortRange}
use chaosblade_exec_os.Ports.Ranges.Valid.{IsPortRange}
use chaosblade_exec_os.Ports.Parse.{parse_integer_list_to_port_ranges}
use chaosblade_exec_os.Channel.{
  Env, Response, Trace, Outcome, returned, forbidden, bind_outcome, M, pure,
}
use chaosblade_exec_os.Channel.Laws.{Returns, Returns-bind, Returns-same, AnswersTexts}
use chaosblade_exec_os.Network.Tc.Queue.{stop_net, pre_handle_txqueue}
use chaosblade_exec_os.Network.Tc.Start.{
  NetArgs, PortRanges, protocol_number, change_queue, parse_port_flag, exclude_port_flag,
  start_with_ranges, start_net,
}
use Stages.{stop_net-EndsBy, change_queue-Restored, pre_handle_txqueue-Returns}
use Excluded.{GoodRanges, exclude_port_flag-Good, parse_port_flag-Good}

-- As root `stopNet` returns whatever the channel answers, and its last call removes the queues of
-- the device; otherwise it makes no call and is forbidden.
pub stop_net_lem :
    (env : Env) (dev : String) (t : Trace)
    → Returns
        (λ r t'.
          ((env.is_root ≡ true) × EndsBy (delete_root dev) t')
          ⊎ ((env.is_root ≡ false) × (t' ≡ t) × (r ≡ env.return_fail forbidden "tc no permission")))
        (stop_net env dev t)
unfolding stop_net
stop_net_lem env dev t = ground arith

module _ (env : Env) (a : NetArgs) (t : Trace) (root : env.is_root ≡ true)
    (texts : AnswersTexts env) (ignored : a.ignore_peer_ports ≡ true) where
  start_with_ranges-Restored :
      (local remote : List PortRange) (protocol : String)
      → All IsPortRange local
      → All IsPortRange remote
      → HasPorts a.exclude_port
      → Returns (Restored a t) (start_with_ranges env a local remote protocol t)
  unfolding start_with_ranges
  start_with_ranges-Restored local remote protocol l m ports =
      let (result, excluded, good) =
        Returns-same GoodRanges t (exclude_port_flag env a t)
          (exclude_port_flag-Good env t a ignored ports) in
      go result excluded good
    where
      prepared :
          (ranges : PortRanges)
          → All IsPortRange ranges.local
          → All IsPortRange ranges.remote
          → All IsPortRange ranges.exclude
          → (r : Response) (t' : Trace) → r.success ≡ true
          → Returns (Restored a t) (
              (elim r.success as (λ x. M Response) [
                | false ↦ pure r
                | true ↦ change_queue env a ranges protocol
              ])
                t')
      prepared ranges l m x r t' e =
          rw (e, Returns) (change_queue-Restored env root texts a t ranges protocol t' l m x)

      go :
          (result : Result Response (List PortRange))
          → exclude_port_flag env a t ≡ returned result t
          → GoodRanges result
          → Returns (Restored a t) (start_with_ranges env a local remote protocol t)
      go (err response) p good = rw (p, Returns) (inr (inr (inl refl)))
      go (ok exclude) p good =
          rw (p, Returns)
            (Returns-bind (λ r t'. r.success ≡ true) (Restored a t)
              (pre_handle_txqueue env a.net_interface t) _
              (pre_handle_txqueue-Returns env root texts a t t)
              (prepared (record { local = local; remote = remote; exclude = exclude }) l m good))

-- As root, on a channel whose successes carry a text, with port flags that name ports from 1 to
-- 65535 where they are accepted, and without peer ports, `startNet` returns. Unless its response is
-- a success, nothing was called, or the last call removes the queues of the device, or the last call
-- is the one that adds the class rule at the root where only an interface is given.
pub start_net-Restored :
    (env : Env) (a : NetArgs) (t : Trace)
    → env.is_root ≡ true
    → AnswersTexts env
    → a.ignore_peer_ports ≡ true
    → HasPorts a.local_port
    → HasPorts a.remote_port
    → HasPorts a.exclude_port
    → Returns (Restored a t) (start_net env a t)
unfolding start_net
start_net-Restored env a t root texts ignored lp rp xp =
    with_protocol (protocol_number a.protocol) refl
  where
    with_remote :
        (local : List PortRange) (protocol : String) (result : Result Response (List PortRange))
        → parse_port_flag env "remote-port" a.remote_port ≡ result
        → All IsPortRange local
        → GoodRanges result
        → protocol_number a.protocol ≡ some protocol
        → parse_port_flag env "local-port" a.local_port ≡ ok local
        → Returns (Restored a t) (start_net env a t)
    with_remote local protocol (err e) p l good q q' =
        rw (q, Returns) (rw (q', Returns) (rw (p, Returns) (inr (inr (inl refl)))))
    with_remote local protocol (ok remote) p l good q q' =
        rw (q, Returns)
          (rw (q', Returns)
            (rw (p, Returns)
              (start_with_ranges-Restored env a t root texts ignored local remote protocol l good
                xp)))

    with_local :
        (protocol : String) (result : Result Response (List PortRange))
        → parse_port_flag env "local-port" a.local_port ≡ result
        → GoodRanges result
        → protocol_number a.protocol ≡ some protocol
        → Returns (Restored a t) (start_net env a t)
    with_local protocol (err e) p good q = rw (q, Returns) (rw (p, Returns) (inr (inr (inl refl))))
    with_local protocol (ok local) p good q =
        with_remote local protocol (parse_port_flag env "remote-port" a.remote_port) refl good
          (parse_port_flag-Good env t "remote-port" a.remote_port rp) q p

    with_protocol :
        (number : Option String)
        → protocol_number a.protocol ≡ number
        → Returns (Restored a t) (start_net env a t)
    with_protocol none p = rw (p, Returns) (inr (inr (inl refl)))
    with_protocol (some protocol) p =
        with_local protocol (parse_port_flag env "local-port" a.local_port) refl
          (parse_port_flag-Good env t "local-port" a.local_port lp) p
