-- ===== src/Runs/Requests.antt =====
-- The theorems on the requests of crates/bacnet-codec/src/apdu at concrete requests.
use bacnet_sim.Prelude.{◌≡◌, some, arith, ok}
use bacnet_sim.Codec.Unconfirmed
use bacnet_sim.Codec.Unconfirmed.{IAmRequest, Segmentation, who_is, i_am}
use bacnet_sim.Codec.Unconfirmed.RoundTrip.{limits_kept, decode-encode_who_is}

who_is_1000_to_2000 :
    Unconfirmed.decode
      (Unconfirmed.encode (who_is (record { low_limit = some 1000; high_limit = some 2000 })))
    ≡ ok (who_is (limits_kept (some 1000) (some 2000)))
who_is_1000_to_2000 = decode-encode_who_is (some 1000) (some 2000) (omega arith) (omega arith)
