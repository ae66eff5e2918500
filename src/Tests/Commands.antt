-- ===== src/Tests/Commands.antt =====
-- The commands and the client of the management API at concrete inputs.
use weron.Prelude.{is_space, blank, String, ◌≡◌, refl, true, false, Option, none, some, [], ◌∷◌}
use weron.Prelude.Int64.{pos}
use weron.Cmd.Adapters.{Flags, Dial, ip_adapter, dial_of}
use weron.Cmd.Join.{
  Query, check_common, all_cidrs, dial, run_vpn_ip, vpn_ip, run_command, Addressed, Wants,
  run_command-checks,
}
use weron.Manager.{HttpRequest, HttpResponse, Manager}

abbrev flags : Flags
flags = record {
  raddr = "ws://host";
  community = "c";
  password = "p";
  key = "k";
  names = "alice" ∷ [];
  channels = "one" ∷ [];
  ice = [];
  ips = "10.0.0.1/24" ∷ [];
  id_channel = "id";
  dev = "";
  mac = "";
  timeout = pos 10;
  kicks = pos 5;
  max_retries = pos 200;
  parallel = pos 4;
  packet_length = pos 128;
  packet_count = pos 10;
  pause = pos 1;
  force_relay = false;
  static = false;
  server = true;
}

abbrev dialled : Dial
dialled = record {
  signaler = "ws://host";
  key = "k";
  ice = [];
  timeout = pos 10;
  force_relay = false;
}

abbrev parsed : String → Option (String × Query)
parsed raddr = some (raddr, ("password", "old" ∷ []) ∷ ("lang", "en" ∷ []) ∷ [])

abbrev printed : String → Query → String
printed address query = address

run_command-checks_example :
    (blank "c" ≡ false)
    × (blank "p" ≡ false)
    × (blank "k" ≡ false)
    × Wants parsed printed (λ ip. true) vpn_ip flags
    × Addressed parsed printed (λ ip. true) flags "ws://host"
    × (◌≡◌ {A = String} "k" "k")
unfolding run_command run_vpn_ip check_common all_cidrs dial dial_of blank is_space
run_command-checks_example =
    run_command-checks parsed printed (λ ip. true) vpn_ip flags
      (ip_adapter dialled "" ("10.0.0.1/24" ∷ []) (pos 200) (pos 4) "id" (pos 5) false) refl

abbrev m : Manager
m = record { url = "http://host"; username = "admin"; password = "secret" }

abbrev never_send : HttpRequest → Option HttpResponse
never_send r = some (record { status = 501; body = none })
