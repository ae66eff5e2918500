-- ===== src/Cmd/Join.antt =====
-- cmd/weron/cmd/{chat,vpn_ip,vpn_ethernet,utility_latency,utility_throughput}.go: from the values
-- of the flags to the adapter that is opened.
use weron.Prelude.{
  if◌then◌else◌, Option-cases, All, blank, lookup, insert, lookup-insert, Result, ok, err, String,
  ◌≡◌, refl, ap, ◌≢◌, inl, inr, Bool, true, false, Option, none, some, List, [], ◌∷◌, arith, str_eq,
}
use weron.Cmd.Adapters.{
  Flags, CmdError, no_community, no_password, no_key, no_usernames, no_ips, invalid_cidr,
  invalid_url, Dial, Adapter, chat_adapter, ip_adapter, ethernet_adapter, latency_adapter,
  throughput_adapter, dial_of,
}

-- The values of each key of a query; `Set` of a key replaces its values by one.
abbrev pub Query : Type 0
Query = List (String × List String)

-- `parse` is `url.Parse` with `Query`: an address without its query, and the query; `print` is `String`
-- after `RawQuery` was set to the encoded query. `is_cidr` says whether `net.ParseCIDR` takes a text.
module _ {Address : Type 0} (parse : String → Option (Address × Query))
    (print : Address → Query → String) (is_cidr : String → Bool) where
  -- The three checks that all commands begin with, in their order.
  unfoldable pub check_common : Flags → Option CmdError
  check_common f =
      if blank f.community
      then some no_community
      else if blank f.password
      then some no_password
      else if blank f.key
      then some no_key
      else none

  unfoldable pub all_cidrs : List String → Bool
  all_cidrs [] = true
  all_cidrs (ip ∷ ips) = if is_cidr ip then all_cidrs ips else false

  -- `q.Set("community", …)` and `q.Set("password", …)`.
  abbrev pub set_community : Flags → Query → Query
  set_community f query = insert "community" (f.community ∷ []) query

  abbrev pub set_password : Flags → Query → Query
  set_password f query = insert "password" (f.password ∷ []) query

  -- The parsing of the remote address, and the call of `NewAdapter`.
  unfoldable pub dial : Flags → (Dial → Adapter) → Result CmdError Adapter
  dial f new_adapter = elim (parse f.raddr) [
    | none ↦ err invalid_url
    | some (address, query) ↦ ok (
        new_adapter (record {
          signaler = print address (set_password f (set_community f query));
          key = f.key;
          ice = f.ice;
          timeout = f.timeout;
          force_relay = f.force_relay;
        }))
  ]

  unfoldable pub run_chat : Flags → Result CmdError Adapter
  run_chat f = elim (check_common f) [
    | some e ↦ err e
    | none ↦ elim f.names [
      | [] ↦ err no_usernames
      | _ ∷ _ ↦ dial f (λ d. chat_adapter d f.channels f.id_channel f.names f.kicks)
    ]
  ]

  unfoldable pub run_vpn_ip : Flags → Result CmdError Adapter
  run_vpn_ip f = elim (check_common f) [
    | some e ↦ err e
    | none ↦ elim f.ips [
      | [] ↦ err no_ips
      | _ ∷ _ ↦
          if all_cidrs f.ips
          then dial f
              (λ d. ip_adapter d f.dev f.ips f.max_retries f.parallel f.id_channel f.kicks f.static)
          else err invalid_cidr
    ]
  ]

  unfoldable pub run_vpn_ethernet : Flags → Result CmdError Adapter
  run_vpn_ethernet f = elim (check_common f) [
    | some e ↦ err e
    | none ↦ dial f (λ d. ethernet_adapter d f.dev f.parallel f.mac)
  ]

  unfoldable pub run_utility_latency : Flags → Result CmdError Adapter
  run_utility_latency f = elim (check_common f) [
    | some e ↦ err e
    | none ↦ dial f (λ d. latency_adapter d f.server f.packet_length f.pause)
  ]

  unfoldable pub run_utility_throughput : Flags → Result CmdError Adapter
  run_utility_throughput f = elim (check_common f) [
    | some e ↦ err e
    | none ↦ dial f (λ d. throughput_adapter d f.server f.packet_length f.packet_count)
  ]

  -- The commands by name.
  pub data Command : Type 0 where
    chat vpn_ip vpn_ethernet latency throughput : Command

  unfoldable pub run_command : Command → Flags → Result CmdError Adapter
  run_command chat f = run_chat f
  run_command vpn_ip f = run_vpn_ip f
  run_command vpn_ethernet f = run_vpn_ethernet f
  run_command latency f = run_utility_latency f
  run_command throughput f = run_utility_throughput f

  dial_of-ok :
      (r : Result CmdError Adapter) (a b : Adapter) (d : Dial)
      → dial_of b ≡ d
      → r ≡ ok b
      → r ≡ ok a
      → dial_of a ≡ d
  dial_of-ok r a b d law g h = ground (arith, law, g, h)

  -- The remote address of the flags with their community and password as the only values of these keys
  -- in its query, and the other keys as they were.
  abbrev pub Addressed : Flags → String → Type 0
  Addressed f url =
      (address : Address) × (query : Query) × (query' : Query) × (parse f.raddr
        ≡ some (address, query))
      × (url ≡ print address query')
      × (lookup "community" query' ≡ some (f.community ∷ []))
      × (lookup "password" query' ≡ some (f.password ∷ []))
      × ((k : String)
          → str_eq "community" k ≡ false
          → str_eq "password" k ≡ false
          → lookup k query' ≡ lookup k query)

  set-lookup :
      (f : Flags) (query : Query) (k : String)
      → lookup k (set_password f (set_community f query)) ≡ (
          if str_eq "password" k
          then some (f.password ∷ [])
          else if str_eq "community" k
          then some (f.community ∷ [])
          else lookup k query)
  set-lookup f query k = ground (
    arith,
    lookup-insert k "password" (f.password ∷ []) (set_community f query),
    lookup-insert k "community" (f.community ∷ []) query,
  )

  dial-Addressed :
      (f : Flags) (new_adapter : Dial → Adapter) (a : Adapter)
      → ((d : Dial) → dial_of (new_adapter d) ≡ d)
      → dial f new_adapter ≡ ok a
      → Addressed f (dial_of a).signaler × ((dial_of a).key ≡ f.key)
  unfolding dial
  dial-Addressed f new_adapter a law h = elim (Option-cases (parse f.raddr)) [
    | inl n ↦ absurd (ground (arith, n, h))
    | inr ((address, query), e) ↦
        let d : Dial = record {
          signaler = print address (set_password f (set_community f query));
          key = f.key;
          ice = f.ice;
          timeout = f.timeout;
          force_relay = f.force_relay;
        } in
        let opened : dial f new_adapter ≡ ok (new_adapter d) = rw (e, dial) refl in
        let same : dial_of a ≡ d =
          dial_of-ok (dial f new_adapter) a (new_adapter d) d (law d) opened h in
        (
          (
            address,
            query,
            set_password f (set_community f query),
            e,
            ap (λ x. x.signaler) same,
            set-lookup f query "community",
            set-lookup f query "password",
            λ k n m. ground (arith, set-lookup f query k, n, m),
          ),
          ap (λ x. x.key) same,
        )
  ]

  all_cidrs-All : (ips : List String) → all_cidrs ips ≡ true → All (λ ip. is_cidr ip ≡ true) ips
  unfolding all_cidrs
  all_cidrs-All [] h = tt
  all_cidrs-All (ip ∷ ips) h = (ground (arith, h), all_cidrs-All ips (ground (arith, h)))

  check_common-none :
      (f : Flags)
      → check_common f ≡ none
      → (blank f.community ≡ false) × (blank f.password ≡ false) × (blank f.key ≡ false)
  unfolding check_common
  check_common-none f h = ground (arith, h)

  -- What else a command asks of its flags.
  abbrev pub Wants : Command → Flags → Type 0
  Wants chat f = f.names ≢ []
  Wants vpn_ip f = (f.ips ≢ []) × All (λ ip. is_cidr ip ≡ true) f.ips
  Wants vpn_ethernet f = Unit
  Wants latency f = Unit
  Wants throughput f = Unit

  run_chat-dials :
      (f : Flags) (a : Adapter)
      → run_chat f ≡ ok a
      → (check_common f ≡ none)
        × (f.names ≢ [])
        × (dial f (λ d. chat_adapter d f.channels f.id_channel f.names f.kicks) ≡ ok a)
  unfolding run_chat
  run_chat-dials f a h = ground (arith, h)

  run_vpn_ip-dials :
      (f : Flags) (a : Adapter)
      → run_vpn_ip f ≡ ok a
      → (check_common f ≡ none)
        × (f.ips ≢ [])
        × (all_cidrs f.ips ≡ true)
        × (dial f
              (λ d. ip_adapter d f.dev f.ips f.max_retries f.parallel f.id_channel f.kicks f.static)
            ≡ ok a)
  unfolding run_vpn_ip
  run_vpn_ip-dials f a h = ground (arith, h)

  -- Without a further check.
  checked_dial :
      (f : Flags) (new_adapter : Dial → Adapter) (a : Adapter)
      → elim (check_common f) [ some e ↦ err e | none ↦ dial f new_adapter ] ≡ ok a
      → (check_common f ≡ none) × (dial f new_adapter ≡ ok a)
  checked_dial f new_adapter a h = ground (arith, h)

  -- A command opens an adapter only if community, password and key are not blank, chat only with a
  -- user name and the IP network only with an address and if all of them are in CIDR notation; the
  -- adapter has the key of the flags and dials the remote address, with the community and the password
  -- as the values of these two keys in its query and the rest of the query unchanged.
  pub run_command-checks :
      (c : Command) (f : Flags) (a : Adapter)
      → run_command c f ≡ ok a
      → (blank f.community ≡ false)
        × (blank f.password ≡ false)
        × (blank f.key ≡ false)
        × Wants c f
        × Addressed f (dial_of a).signaler
        × ((dial_of a).key ≡ f.key)
  unfolding run_command run_vpn_ethernet run_utility_latency run_utility_throughput dial_of
  run_command-checks chat f a h =
      let (checked, names, opened) = run_chat-dials f a h in
      let (community, password, key) = check_common-none f checked in
      let (url, same) = dial-Addressed f _ a (λ d. refl) opened in
      (community, password, key, names, url, same)
  run_command-checks vpn_ip f a h =
      let (checked, ips, cidrs, opened) = run_vpn_ip-dials f a h in
      let (community, password, key) = check_common-none f checked in
      let (url, same) = dial-Addressed f _ a (λ d. refl) opened in
      (community, password, key, (ips, all_cidrs-All f.ips cidrs), url, same)
  run_command-checks vpn_ethernet f a h =
      let (checked, opened) = checked_dial f (λ d. ethernet_adapter d f.dev f.parallel f.mac) a h in
      let (community, password, key) = check_common-none f checked in
      let (url, same) = dial-Addressed f _ a (λ d. refl) opened in
      (community, password, key, tt, url, same)
  run_command-checks latency f a h =
      let (checked, opened) =
        checked_dial f (λ d. latency_adapter d f.server f.packet_length f.pause) a h in
      let (community, password, key) = check_common-none f checked in
      let (url, same) = dial-Addressed f _ a (λ d. refl) opened in
      (community, password, key, tt, url, same)
  run_command-checks throughput f a h =
      let (checked, opened) =
        checked_dial f (λ d. throughput_adapter d f.server f.packet_length f.packet_count) a h in
      let (community, password, key) = check_common-none f checked in
      let (url, same) = dial-Addressed f _ a (λ d. refl) opened in
      (community, password, key, tt, url, same)
