-- ===== src/L2/Foreign.antt =====
-- ax25/l2/l2.go: frames between other stations.
use tncd.Prelude.{Bool-cases, Bytes, false, inl, inr, none, refl, ℕ, ◌≡◌}
use tncd.Ax25.Address.{to_string}
use tncd.Ax25.Frame.{
  Frame, FrameType, disc, dm, frmr, i_frame, rej, rnr, rr, sabm, sabme, srej, ua, xid,
}
use tncd.L2.State.{Table, get}
use tncd.L2.Setup.{dispatch_sabm, dispatch_sabme, heard_elsewhere, is_active}
use tncd.L2.Events.{
  dispatch, dispatch_disc, dispatch_dm, dispatch_frmr, dispatch_i, dispatch_s, dispatch_ua,
  dispatch_xid, is_engaged, on_frame, refuse_i,
}

module _ (t : Table) (port : ℕ) (f : Frame) (src dst : Bytes) where
  sabm-foreign : t.is_local port dst ≡ false → dispatch_sabm t port f src dst ≡ t
  unfolding dispatch_sabm
  sabm-foreign h = elim (Bool-cases (heard_elsewhere is_active t port dst src)) [
    | inl e ↦ rw e refl
    | inr e ↦ rw (e, h) refl
  ]

  sabme-foreign : t.is_local port dst ≡ false → dispatch_sabme t port f src dst ≡ t
  unfolding dispatch_sabme
  sabme-foreign h = elim (Bool-cases (heard_elsewhere is_active t port dst src)) [
    | inl e ↦ rw e refl
    | inr e ↦ rw (e, h) refl
  ]

  disc-foreign :
      get t port dst src ≡ none → t.is_local port dst ≡ false → dispatch_disc t port f src dst ≡ t
  unfolding dispatch_disc
  disc-foreign g h = elim (Bool-cases (heard_elsewhere is_engaged t port dst src)) [
    | inl e ↦ simp (g, e, dispatch_disc)
    | inr e ↦ simp (g, e, h, dispatch_disc)
  ]

  refuse_i-foreign : t.is_local port dst ≡ false → refuse_i t port f src dst ≡ t
  unfolding refuse_i
  refuse_i-foreign h = elim (Bool-cases (heard_elsewhere is_active t port dst src)) [
    | inl e ↦ rw e refl
    | inr e ↦ elim (Bool-cases f.pf) [ inl p ↦ rw (e, p, h) refl | inr p ↦ rw (e, p) refl ]
  ]

  i-foreign :
      get t port dst src ≡ none → t.is_local port dst ≡ false → dispatch_i t port f src dst ≡ t
  unfolding dispatch_i
  i-foreign g h = simp (g, dispatch_i) (refuse_i-foreign h)

  s-foreign : get t port dst src ≡ none → dispatch_s t port f src dst ≡ t
  unfolding dispatch_s
  s-foreign g = rw g refl

  dispatch-foreign :
      (ty : FrameType)
      → get t port dst src ≡ none
      → t.is_local port dst ≡ false
      → dispatch ty t port f src dst ≡ t
  unfolding dispatch dispatch_ua dispatch_dm dispatch_frmr dispatch_xid
  dispatch-foreign sabm g h = sabm-foreign h
  dispatch-foreign sabme g h = sabme-foreign h
  dispatch-foreign ua g h = rw g refl
  dispatch-foreign dm g h = rw g refl
  dispatch-foreign disc g h = disc-foreign g h
  dispatch-foreign frmr g h = rw g refl
  dispatch-foreign i_frame g h = i-foreign g h
  dispatch-foreign rr g h = s-foreign g
  dispatch-foreign rnr g h = s-foreign g
  dispatch-foreign rej g h = s-foreign g
  dispatch-foreign srej g h = s-foreign g
  dispatch-foreign xid g h = rw h refl
  dispatch-foreign _ g h = refl

-- A frame of any type, whose destination is no local call on the port and whose address pair has no
-- connection there, leaves the whole table as it is: nothing is sent, no hook is called, no timer
-- is started and no connection is made.
pub on_frame-foreign :
    (t : Table) (port : ℕ) (f : Frame)
    → get t port (to_string f.dst) (to_string f.src) ≡ none
    → t.is_local port (to_string f.dst) ≡ false
    → on_frame t port f ≡ t
unfolding on_frame
on_frame-foreign t port f g h =
    rw (dispatch-foreign t port f (to_string f.src) (to_string f.dst) f.type g h) (rw g refl)
