-- ===== src/Network/Tc/Packets/Refinement.antt =====
-- The text of `buildTargetFilterPortAndIp` does what an experiment is meant to do to packets.
use chaosblade_exec_os.Prelude.{◌≡◌, ◌<◌, String, List, Option, some, str_eq, if◌then◌else◌}
use chaosblade_exec_os.Go.Strings.{◌+s◌}
use chaosblade_exec_os.Network.Tc.Filters.{Target}
use chaosblade_exec_os.Network.Tc.Packets.{Packet, intended_band}
use chaosblade_exec_os.Network.Tc.Packets.Commands.{Command, show_all, tc_band}

-- What is written for a protocol: nothing where none is given.
abbrev pub rule_of : String → String
rule_of protocol =
    if str_eq protocol ""
    then ""
    else " \\\n                                         match ip protocol " +s protocol +s " 0xff"

-- The text is that of a list of commands by which `tc` sends each packet to its intended band.
abbrev pub Implements : Target → String → String → String → Option String → Type 0
Implements g args dev protocol text =
    (cs : List Command) × (text ≡ some (show_all dev (rule_of protocol) cs args))
    × ((p : Packet) → p.sport < 65536 → p.dport < 65536 → tc_band p cs ≡ intended_band g p)
