-- ===== src/Network/Dns.antt =====
-- exec/network/network_dns.go, without the applier that replaces domains, and network_dnsdown.go.
use Prim.Native.String.{[], ◌∷◌}
use mathlib.Core.List.{[], ◌∷◌}
use chaosblade_exec_os.Prelude.{
  String, List, Option, none, some, Bool, true, false, str_eq, ◌||◌, ◌&&◌, ◌==◌, ◌+◌, ℕ, code,
}
use chaosblade_exec_os.Go.Strings.{◌+s◌, contains, split, join}
use chaosblade_exec_os.Channel.{
  Env, Response, Context, Flags, flag, parameter_less, os_cmd_exec_failed, M, pure, ◌>>=◌, ◌>>◌,
  run_cmd, is_all_commands_available,
}

-- hostsfile.HostsFilePath, and the applier that replaces domains by that package: the response for
-- the uid, the domains and the ip.
pub record Hosts : Type 0 where
  pub path : String
  pub replace_start : String → String → String → M Response

-- The text is these small letters, up to the case.
unfoldable pub spells : List ℕ → String → Bool
spells [] [] = true
spells [] (c ∷ s) = false
spells (n ∷ ns) [] = false
spells (n ∷ ns) (c ∷ s) = let rest = spells ns s in (code c == n || code c + 32 == n) && rest

-- strconv.ParseBool(strings.ToLower(value)): "1", "t" or "true"; false on an error.
unfoldable pub parse_replace : String → Bool
unfolding spells
parse_replace value =
    str_eq value "1" || spells (b't' ∷ []) value || spells (b't' ∷ b'r' ∷ b'u' ∷ b'e' ∷ []) value

unfoldable pub create_dns_pair : String → String → String
create_dns_pair domain ip = ip +s " " +s domain +s " #chaosblade"

module _ (env : Env) (hosts : Hosts) where
  -- hosts-$uid
  abbrev pub backup_hosts : String → String
  backup_hosts uid = hosts.path +s "-" +s uid

  unfoldable pub dns_stop : String → M Response
  unfolding contains
  dns_stop uid = do
    response ← run_cmd env "cat" (backup_hosts uid +s " > " +s hosts.path)
    elim response.success [
      | true ↦ pure response
      | false ↦ elim (contains response.err "No such file or directory") [
        | true ↦ pure (env.return_success "The hosts file has been recovered")
        | false ↦ pure response
      ]
    ]

  unfoldable pub backup_host_file : String → M Response
  backup_host_file uid = run_cmd env "cp" (hosts.path +s " " +s backup_hosts uid)

  -- defaultApplier.Start; ReplaceAll of "," by " " is a split and a join.
  unfoldable pub default_start : String → String → M Response
  unfolding create_dns_pair split
  default_start domain_arg ip = do
    let dns_pair = create_dns_pair (join (split b',' domain_arg) " ") ip
    response ← run_cmd env "grep" ("-q \"" +s dns_pair +s "\" " +s hosts.path)
    elim response.success [
      | true ↦ pure (env.return_fail os_cmd_exec_failed (dns_pair +s " has been exist"))
      | false ↦ run_cmd env "echo" ("\"" +s dns_pair +s "\" >> " +s hosts.path)
    ]

  unfoldable pub applier_start : Bool → String → String → String → M Response
  unfolding default_start
  applier_start true uid domain ip = hosts.replace_start uid domain ip
  applier_start false uid domain ip = default_start domain ip

  unfoldable pub dns_exec : String → Context → Flags → M Response
  unfolding flag dns_stop backup_host_file applier_start parse_replace
  dns_exec uid ctx flags = do
    missing ← is_all_commands_available env ("grep" ∷ "cat" ∷ "rm" ∷ "echo" ∷ [])
    elim missing [
      | some response ↦ pure response
      | none ↦ elim (str_eq (flag flags "domain") "" || str_eq (flag flags "ip") "") [
        | true ↦ pure (env.fail_with_flags parameter_less ("domain|ip" ∷ []))
        | false ↦ elim ctx.destroy [
          | true ↦ dns_stop uid
          | false ↦ do
            response ← backup_host_file uid
            elim response.success [
              | false ↦ pure response
              | true ↦
                  applier_start (parse_replace (flag flags "replace")) uid (flag flags "domain")
                    (flag flags "ip")
            ]
        ]
      ]
    ]

  abbrev pub tmp_hosts : String
  tmp_hosts = "/tmp/chaos-hosts.tmp"

  abbrev pub iptables_backup : String
  iptables_backup = "/tmp/iptables-backup.txt"

  -- The command that writes the addresses of a domain that stays allowed to the hosts.
  unfoldable pub allow_domain_args : String → String
  allow_domain_args domain =
      "domain=\"" +s domain
      +s "\" && if ping -c 1 $domain > /dev/null; then echo \"$(nslookup $domain | grep 'Address:' | grep -oE '([0-9]{1,3}\\.){3}[0-9]{1,3}' | grep -v ':' | tail -1) $domain\" | sudo tee -a "
      +s hosts.path +s "; fi"

  -- The loop over the allowed domains; the response if one fails, after the hosts are recovered.
  unfoldable pub allow_domains : List String → M (Option Response)
  allow_domains [] = pure none
  allow_domains (domain ∷ rest) = do
    response ← run_cmd env "" (allow_domain_args domain)
    elim response.success [
      | true ↦ allow_domains rest
      | false ↦ do
        run_cmd env "cat" (tmp_hosts +s " > " +s hosts.path)
        pure (some (env.return_fail os_cmd_exec_failed response.err))
    ]

  -- From the backup of the iptables rules on; `error` is Response.Error().
  unfoldable pub drop_dns : (Response → String) → M Response
  drop_dns error = do
    backup ← run_cmd env "iptables-save" ("> " +s iptables_backup)
    elim backup.success [
      | false ↦ pure (env.return_fail os_cmd_exec_failed (error backup))
      | true ↦ do
        response ←
            run_cmd env "iptables"
              "-A OUTPUT -p udp --dport 53 -j DROP; iptables -A OUTPUT -p tcp --dport 53 -j DROP"
        elim response.success [
          | true ↦ pure response
          | false ↦ pure (
              env.return_fail os_cmd_exec_failed (
                "DNS dwon fialed for " +s response.err +s ", you can use \"iptables-restore < "
                +s iptables_backup +s "\" to restore your iptable rules if needed."))
        ]
    ]

  unfoldable pub dns_down_start : (Response → String) → List String → M Response
  unfolding allow_domains drop_dns
  dns_down_start error [] = drop_dns error
  dns_down_start error (first ∷ rest) = do
    backup ← run_cmd env "cat" (hosts.path +s " > " +s tmp_hosts)
    elim backup.success [
      | false ↦
          pure
            (env.return_fail os_cmd_exec_failed ("Backup hosts file failed. Error: " +s backup.err))
      | true ↦ do
        failed ← allow_domains (first ∷ rest)
        elim failed [ some response ↦ pure response | none ↦ drop_dns error ]
    ]

  -- The end of `stop`.
  unfoldable pub clear_backups : M Response
  clear_backups = run_cmd env "rm" ("-rf " +s tmp_hosts +s " " +s iptables_backup)

  unfoldable pub dns_down_stop : List String → M Response
  unfolding clear_backups
  dns_down_stop domains = do
    response ← run_cmd env "iptables-restore" ("< " +s iptables_backup)
    elim response.success [
      | false ↦ pure (
          env.return_fail os_cmd_exec_failed (
            "DNS recover fialed for " +s response.err +s ", you can use \"iptables-restore < "
            +s iptables_backup +s "\" to restore your iptables rules if needed."))
      | true ↦ elim domains [
        | [] ↦ clear_backups
        | first ∷ rest ↦ do
          restored ← run_cmd env "cat" (tmp_hosts +s " > " +s hosts.path)
          elim restored.success [
            | false ↦ pure (
                env.return_fail os_cmd_exec_failed (
                  "Restore hosts file failed. Error: " +s restored.err
                  +s ", a backup of hosts is in " +s tmp_hosts))
            | true ↦ clear_backups
          ]
      ]
    ]

  unfoldable pub dns_down_exec : (Response → String) → Context → Flags → M Response
  unfolding dns_down_start dns_down_stop flag split
  dns_down_exec error ctx flags = do
    missing ← is_all_commands_available env (
        "grep" ∷ "cat" ∷ "rm" ∷ "echo" ∷ "iptables" ∷ "iptables-save" ∷ "iptables-restore"
        ∷ "nslookup" ∷ "awk" ∷ "ping" ∷ "tee" ∷ "tail" ∷ [])
    elim missing [
      | some response ↦ pure response
      | none ↦ elim ctx.destroy [
        | true ↦ dns_down_stop (split b',' (flag flags "allow_domain"))
        | false ↦ dns_down_start error (split b',' (flag flags "allow_domain"))
      ]
    ]
