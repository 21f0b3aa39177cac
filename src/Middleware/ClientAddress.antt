-- ===== src/Middleware/ClientAddress.antt =====
-- proxy.go: which address is taken for the client's.
use gateway_runtime.Prelude.{
  String, true, false, ◌≡◌, ◌∙◌, refl, ap, sym, List, [], ◌∷◌, ◌++◌, none, some, str_eq, All,
  Bool-cases, Option-cases, some_inj, ◌⊎◌, inl, inr, subst,
}
use gateway_runtime.Text.{trim_space, split}
use gateway_runtime.Middleware.{Request}
use gateway_runtime.Middleware.Proxy.{
  Net, is_trusted, untrusted, last_untrusted, host_of, client_identity,
}

module _ (n : Net) where
  open n use {Ip, Network, parse_ip, ip_text, split_host_port}

  -- the text names an address that no trusted network holds
  abbrev pub Names : List Network → String → Ip → Type 0
  Names cidrs text ip = (parse_ip text ≡ some ip) × (is_trusted n cidrs ip ≡ false)

  -- the text names an address in a trusted network
  abbrev pub IsTrusted : List Network → String → Type 0
  IsTrusted cidrs text = (ip : Ip) × (parse_ip text ≡ some ip) × (is_trusted n cidrs ip ≡ true)

  -- the part names no address, or one in a trusted network
  abbrev pub Passed : List Network → String → Type 0
  Passed cidrs part = (parse_ip (trim_space part) ≡ none) ⊎ IsTrusted cidrs (trim_space part)

  -- the last part that names an address outside
  pub record LastNamed (cidrs : List Network) (parts : List String) (ip : Ip) : Type 0 where
    pub before : List String
    pub part : String
    pub after : List String
    pub whole : parts ≡ before ++ part ∷ after
    pub names : Names cidrs (trim_space part) ip
    pub passed : All (Passed cidrs) after

  untrusted-none :
      (cidrs : List Network) (text : String)
      → untrusted n cidrs (parse_ip text) ≡ none
      → (parse_ip text ≡ none) ⊎ IsTrusted cidrs text
  untrusted-none cidrs text h = elim (Option-cases (parse_ip text)) [
    | inl e ↦ inl e
    | inr (ip, e) ↦ elim (Bool-cases (is_trusted n cidrs ip)) [
      | inl t ↦ inr (ip, e, t)
      | inr u ↦ absurd (cc (rw (e, u) at h))
    ]
  ]

  untrusted-some :
      (cidrs : List Network) (text : String) (ip : Ip)
      → untrusted n cidrs (parse_ip text) ≡ some ip
      → Names cidrs text ip
  untrusted-some cidrs text ip h = elim (Option-cases (parse_ip text)) [
    | inl e ↦ absurd (cc (rw e at h))
    | inr (found, e) ↦ elim (Bool-cases (is_trusted n cidrs found)) [
      | inl t ↦ absurd (cc (rw (e, t) at h))
      | inr u ↦
          let same : found ≡ ip = some_inj (rw (e, u) at h) in
          (e ∙ ap some same, subst (λ (i : Ip). is_trusted n cidrs i ≡ false) same u)
    ]
  ]

  last_untrusted-Passed :
      (cidrs : List Network) (parts : List String)
      → last_untrusted n cidrs parts ≡ none
      → All (Passed cidrs) parts
  unfolding last_untrusted
  last_untrusted-Passed cidrs [] h = tt
  last_untrusted-Passed cidrs (part ∷ parts) h =
      elim (Option-cases (last_untrusted n cidrs parts)) [
        | inl e ↦ (
          untrusted-none cidrs (trim_space part) (rw e at h),
          last_untrusted-Passed cidrs parts e,
        )
        | inr (ip, e) ↦ absurd (cc (rw e at h))
      ]

  last_untrusted-LastNamed :
      (cidrs : List Network) (parts : List String) (ip : Ip)
      → last_untrusted n cidrs parts ≡ some ip
      → LastNamed cidrs parts ip
  unfolding last_untrusted
  last_untrusted-LastNamed cidrs [] ip h = absurd (cc)
  last_untrusted-LastNamed cidrs (part ∷ parts) ip h =
      elim (Option-cases (last_untrusted n cidrs parts)) [
        | inl e ↦ record {
          before = [];
          part = part;
          after = parts;
          whole = refl;
          names = untrusted-some cidrs (trim_space part) ip (rw e at h);
          passed = last_untrusted-Passed cidrs parts e;
        }
        | inr (found, e) ↦
            let later = last_untrusted-LastNamed cidrs parts ip (e ∙ (rw e at h)) in
            record {
              before = part ∷ later.before;
              part = later.part;
              after = later.after;
              whole = ap (λ (xs : List String). part ∷ xs) later.whole;
              names = later.names;
              passed = later.passed;
            }
      ]

  -- Where the address of a request over a connection from `host` comes from.
  pub data Identified (cidrs : List Network) (r : Request) (host : String)
      (result : String × String) : Type 0 where
    direct :
        ¬ IsTrusted cidrs host → result ≡ (host, "remote-address") → Identified cidrs r host result
    unnamed :
        IsTrusted cidrs host
        → (str_eq (r.header "X-Forwarded-For") "" ≡ true)
          ⊎ All (Passed cidrs) (split (r.header "X-Forwarded-For") ",")
        → result ≡ (host, "remote-address")
        → Identified cidrs r host result
    forwarded :
        (ip : Ip)
        → IsTrusted cidrs host
        → LastNamed cidrs (split (r.header "X-Forwarded-For") ",") ip
        → result ≡ (ip_text ip, "x-forwarded-for")
        → Identified cidrs r host result

  abbrev connection : Request → String
  connection r = host_of n r.remote_addr (split_host_port r.remote_addr)

  trusted-Identified :
      (cidrs : List Network) (r : Request) (remote : Ip)
      → parse_ip (connection r) ≡ some remote
      → is_trusted n cidrs remote ≡ true
      → Identified cidrs r (connection r) (client_identity n cidrs r)
  unfolding client_identity
  trusted-Identified cidrs r remote e t =
      elim (Bool-cases (str_eq (r.header "X-Forwarded-For") "")) [
        | inl absent ↦ unnamed (remote, e, t) (inl absent) (rw (e, t, absent) refl)
        | inr given ↦
            elim (Option-cases (last_untrusted n cidrs (split (r.header "X-Forwarded-For") ","))) [
              | inl l ↦
                  unnamed (remote, e, t) (inr (last_untrusted-Passed cidrs _ l))
                    (rw (e, t, given, l) refl)
              | inr (ip, l) ↦
                  forwarded ip (remote, e, t) (last_untrusted-LastNamed cidrs _ ip l)
                    (rw (e, t, given, l) refl)
            ]
      ]

  not-IsTrusted :
      (cidrs : List Network) (host : String) (remote : Ip)
      → parse_ip host ≡ some remote
      → is_trusted n cidrs remote ≡ false
      → ¬ IsTrusted cidrs host
  not-IsTrusted cidrs host remote e u (ip, found, t) =
      let same : remote ≡ ip = some_inj (sym e ∙ found) in
      cc (subst (λ (i : Ip). is_trusted n cidrs i ≡ false) same u, t)

  -- The client's address is that of the connection, whatever the header X-Forwarded-For says, unless the
  -- connection comes from a trusted network. Then it is the last part of the header that names an address
  -- outside the trusted networks, whatever stands before it; and again that of the connection where
  -- the header is absent or every part names an address in a trusted network or none at all.
  pub client_identity-Identified :
      (cidrs : List Network) (r : Request)
      → Identified cidrs r
          (host_of n r.remote_addr (split_host_port r.remote_addr))
          (client_identity n cidrs r)
  unfolding client_identity
  client_identity-Identified cidrs r = elim (Option-cases (parse_ip (connection r))) [
    | inl e ↦ direct (λ h. cc (e, h.1)) (rw e refl)
    | inr (remote, e) ↦ elim (Bool-cases (is_trusted n cidrs remote)) [
      | inl t ↦ trusted-Identified cidrs r remote e t
      | inr u ↦ direct (not-IsTrusted cidrs (connection r) remote e u) (rw (e, u) refl)
    ]
  ]
