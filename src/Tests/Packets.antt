-- ===== src/Tests/Packets.antt =====
-- The filters of an experiment at a concrete input.
use chaosblade_exec_os.Prelude.{[], ◌∷◌}
use chaosblade_exec_os.Network.Tc.Filters.{Target}

abbrev target : Target
target = record {
  local_port_ranges = [];
  remote_port_ranges = record { first = 8080; last = 8090 } ∷ [];
  dest_ip_rules = "match ip dst 10.0.0.1" ∷ [];
  exclude_port_ranges = record { first = 22; last = 22 } ∷ [];
  exclude_ip_rules = [];
}
