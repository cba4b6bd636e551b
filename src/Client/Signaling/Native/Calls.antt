-- ===== src/Client/Signaling/Native/Calls.antt =====
-- What `transfer` relies on in the peer connection of native platforms,
-- rust-client/glopfile/src/p2p/native.rs.
use Prim.Native.String.{String}
use glopfile.Base.{◌≡◌, refl, Result, ok, err, ◌>>=◌, arith}
use glopfile.Text.{codes}
use glopfile.Client.Errors.{Error}
use glopfile.Client.Signaling.Connecting.{Documented}
use glopfile.Client.Signaling.Native
use glopfile.Client.Signaling.Native.{
  Library, LibrarySdpType, Callback, NativePeerConnection, native_rtc, stun_servers, on_callback,
  set_remote, to_library, of_library, rtc_err, description_of, described,
}
use glopfile.Client.Signaling.Transfer.{Client}

-- What a call of the library that ended well was followed by.
followed :
    {A B : Type 0} (m : Result String A) (f : A → Result Error B) {b : B}
    → (rtc_err m >>= f) ≡ ok b
    → (a : A) × (f a ≡ ok b)
followed (ok a) f h = (a, h)
followed (err e) f h = cc

module _ (library : Library) where
  -- The type that the connection keeps is that of the offer or answer which it made last.
  pub native-Documented : Documented (native_rtc library)
  unfolding Native.new_peer Native.create_offer Native.create_answer Native.set_remote
      Native.add_candidate
  native-Documented = record {
    new_local = λ i p e.
        let (peer, e1) = followed (library.new stun_servers i) _ e in
        let (channel, e2) =
          followed (library.create_data_channel 0 (codes "glopfile") i peer) _ e1 in
        ground (arith, e2);
    offer_local = λ p q e.
        let (rtc, e1) = followed (library.set_local_description LibrarySdpType.offer p.rtc) _ e in
        ground (arith, e1);
    answer_local = λ p q e.
        let (rtc, e1) = followed (library.set_local_description LibrarySdpType.answer p.rtc) _ e in
        ground (arith, e1);
    remote_local = λ d p q e.
        let (description, e1) = followed (description_of library d) _ e in
        let (rtc, e2) = followed (library.set_remote_description description p.rtc) _ e1 in
        ground (arith, e2);
    candidate_local = λ text p q e.
        let (rtc, e1) = followed (library.add_remote_candidate text p.rtc) _ e in
        ground (arith, e1);
  }

  -- The description that a connection sends is what the connection of the peer sets, with the same type; if
  -- the library parses what it prints.
  pub set_remote-described :
      (d : library.Sdp × LibrarySdpType) (p : NativePeerConnection library)
      → library.parse_sdp (library.show_sdp d.0) ≡ ok d.0
      → set_remote library (described library d) p
        ≡ (rtc_err (library.set_remote_description d p.rtc) >>= λ rtc. ok (record p { rtc = rtc }))
  unfolding set_remote described description_of
  set_remote-described (sdp, LibrarySdpType.answer) p e = rw e refl
  set_remote-described (sdp, LibrarySdpType.offer) p e = rw e refl
  set_remote-described (sdp, LibrarySdpType.pranswer) p e = rw e refl
  set_remote-described (sdp, LibrarySdpType.rollback) p e = rw e refl
