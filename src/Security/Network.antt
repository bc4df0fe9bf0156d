-- ===== src/Security/Network.antt =====
-- crates/tiny-mite-security/src/net_policy.rs: the network policy.
use tiny_mite.Prelude.{
  ℕ, ◌≡◌, Bool, true, false, not, ◌&&◌, ◌||◌, String, List, [], ◌∷◌, arith, any, nat_eq, contains,
  contains_text, if◌then◌else◌, concat, has_prefix, strip_prefix-concat, eq_iff, string_eq,
}

pub record NetworkPolicy : Type 0 where
  pub allow_network : Bool
  pub allowed_hosts : List String
  pub allowed_ports : List ℕ
  pub require_approval : Bool
  pub max_response_size : ℕ
  pub default_timeout_ms : ℕ

-- `NetworkPolicy::default_deny`.
unfoldable pub default_deny : NetworkPolicy
default_deny = record {
  allow_network = false;
  allowed_hosts = [];
  allowed_ports = [];
  require_approval = true;
  max_response_size = 10485760;
  default_timeout_ms = 30000;
}

abbrev is_empty {ℓ} : {A : Type ℓ} → List A → Bool
is_empty [] = true
is_empty (_ ∷ _) = false

unfoldable pub is_allowed : NetworkPolicy → String → ℕ → Bool
is_allowed p host port =
    if not p.allow_network
    then false
    else (is_empty p.allowed_hosts || any (λ h. contains_text h host) p.allowed_hosts)
      && (is_empty p.allowed_ports || contains p.allowed_ports port)

contains_text_of_has_prefix : (n s : String) → has_prefix n s ≡ true → contains_text n s ≡ true
contains_text_of_has_prefix n String.[] h = h
contains_text_of_has_prefix n (String.◌∷◌ c s) h = ground arith

contains_text-concat : (n a b : String) → contains_text n (concat a (concat n b)) ≡ true
contains_text-concat n String.[] b =
    contains_text_of_has_prefix n (concat n b) (rw (strip_prefix-concat n b))
contains_text-concat n (String.◌∷◌ c a) b = ground (arith, contains_text-concat n a b)

any_of_contains :
    (q : String → Bool) (h : String) (hs : List String)
    → contains hs h ≡ true
    → q h ≡ true
    → any q hs ≡ true
any_of_contains q h [] c e = cc
any_of_contains q h (x ∷ hs) c e = ground (arith, eq_iff x h, any_of_contains q h hs)

-- A name in which a listed host occurs, between any two texts, is let through exactly if the
-- network is on and the port is admitted.
pub is_allowed_embedded :
    (p : NetworkPolicy) (h a b : String) (port : ℕ)
    → contains p.allowed_hosts h ≡ true
    → is_allowed p (concat a (concat h b)) port
      ≡ (p.allow_network && (is_empty p.allowed_ports || contains p.allowed_ports port))
unfolding is_allowed
is_allowed_embedded p h a b port c = ground (
  arith,
  any_of_contains (λ x. contains_text x (concat a (concat h b))) h p.allowed_hosts c
      (contains_text-concat h a b),
)
