-- ===== src/Control/Tests.antt =====
-- Runs of the publisher control at concrete inputs (relay/src/publisher_control.rs).
use connectors.Base.{ℕ, ◌≡◌, ◌↔◌, refl, true, none, [], ok, err, codes}
use connectors.Configuration.Types.{RelayRouteConfiguration, standard, web_socket, from_millis}
use connectors.Control.Handle.{
  SharedControl, RelayPublisherControlError, new_with_revision, replace, snapshot, revoke, claim,
  stale_replacement, is_web_socket, validate_expiry,
}
use connectors.Control.Renewal.{replace_iff, created, Renews}
use connectors.Control.Reachable.{
  Life, done, then, replacing, claiming, Advances, IsConsistent, Life-Advances, revoke-snapshot,
  new_with_revision-IsConsistent,
}

abbrev pub route : RelayRouteConfiguration ℕ
route = record {
  relay_url = codes "http://127.0.0.1:1";
  relay_session_id = codes "session";
  source_token = 7;
  bus_id = codes "mix";
  publisher_group_id = codes "session";
  latency_profile = standard;
  ice_servers = [];
  startup_timeout = from_millis 30_000;
  transport = web_socket;
  http_proxy = none;
}

abbrev first : SharedControl ℕ
first = created route 2_000 1

abbrev renewed : SharedControl ℕ
renewed = record first {
  credential = record { token = 8; valid_until = 3_000; revision = 2 };
  published_revision = 2;
}

abbrev claimed_again : SharedControl ℕ
claimed_again = record renewed { claimed = true }

made : new_with_revision 1_000 route 2_000 1 ≡ ok first
unfolding new_with_revision validate_expiry is_web_socket
made = refl

replaced : replace 1_000 2 8 3_000 first ≡ ok renewed
unfolding replace validate_expiry
replaced = refl

-- A revision that does not advance is refused.
stale : replace 1_000 1 8 3_000 first ≡ err stale_replacement
unfolding replace validate_expiry
stale = refl

leased : claim renewed ≡ ok claimed_again
unfolding claim
leased = refl

life : Life (first, 0) (claimed_again, 1)
life = then (replacing 1_000 2 3_000 8 replaced) (then (claiming leased) done)

Life-Advances_example : Advances first claimed_again
Life-Advances_example = Life-Advances life

new_with_revision-IsConsistent_example : IsConsistent (claimed_again, 1)
new_with_revision-IsConsistent_example =
    new_with_revision-IsConsistent 1_000 2_000 1 route first made life

revoke-snapshot_example :
    ((e : RelayPublisherControlError) × (snapshot 1_000 (revoke renewed) ≡ err e))
    × ((e : RelayPublisherControlError) × (replace 1_000 3 9 4_000 (revoke renewed) ≡ err e))
revoke-snapshot_example = revoke-snapshot renewed 0 1_000 3 4_000 9 done

replace_iff_example : (replace 1_000 2 8 3_000 first ≡ ok renewed) ↔ (
    Renews 1_000 2 3_000 first
    × (renewed ≡ record first {
      credential = record { token = 8; valid_until = 3_000; revision = 2 };
      published_revision = 2;
    }))
replace_iff_example = replace_iff 1_000 2 3_000 8 first renewed
