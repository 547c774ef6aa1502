-- ===== src/L2/Sessions/Valid.antt =====
-- ax25/l2/l2.go: the invariant of the connection table, and the operations on the table itself.
use mathlib.Core.Path.{subst}
use tncd.Prelude.{
  All, Bool, Bool-cases, Bytes, List, Option-cases, arith, false, inl, inr, leb, length, none, refl,
  some, sym, true, ℕ, ◌∙◌, ◌≡◌, ◌≤◌,
}
use tncd.Ax25.Frame.{Frame}
use tncd.L2.State.{
  Conn, Effect, Table, cancelled, find_key, get_or_create, make_key, max_connections, note, remove,
  remove_conn, send_ax25, sessions, table_send, update,
}
use tncd.L2.Links.{Link, close_link, finish, on_link, open_link}
use tncd.L2.Sessions.Keeps.{Keeps, reported, reported-cancelled}
use tncd.L2.Sessions.Keys.{
  Allocated, Allocated-suc, Bears, UniqueKeys, delete_key-All, delete_key-UniqueKeys, fresh-Bears,
  length-delete_key, sessions-delete_key, update-Bears,
}

-- At most 64 connections, each under its own key, which its object bears; the objects are allocated;
-- and the last session count reported for each port is the number of its connections.
pub record IsValid (t : Table) : Type 0 where
  pub bounded : length t.conns ≤ max_connections
  pub bears : All (Bears t.heap) t.conns
  pub unique : UniqueKeys t.conns
  pub allocated : All (Allocated t.next_conn) t.conns
  pub counted : (p : ℕ) → reported p t.log ≡ sessions p t.conns

put_conn-IsValid :
    (t : Table) (r : ℕ) (c : Conn) (n : ℕ) (log : List Effect)
    → c.port ≡ (t.heap r).port
    → c.local ≡ (t.heap r).local
    → c.remote ≡ (t.heap r).remote
    → ((p : ℕ) → reported p log ≡ reported p t.log)
    → IsValid t
    → IsValid (record t { heap = update t.heap r c; next_timer = n; log = log })
put_conn-IsValid t r c n log p q s h v = record {
  bounded = v.bounded;
  bears = update-Bears t.heap r c t.conns p q s v.bears;
  unique = v.unique;
  allocated = v.allocated;
  counted = λ k. h k ∙ v.counted k;
}

-- Closing a link that kept its identity.
pub close_link-IsValid :
    (t : Table) (r : ℕ) (m : Link) → Keeps (open_link t r) m → IsValid t → IsValid (close_link m)
unfolding close_link open_link
close_link-IsValid t r m k v =
    let closed : close_link m
        ≡ record t { heap = update t.heap r m.conn; next_timer = m.next_timer; log = m.log } =
      λ i. record (k.table i) {
        heap = update (k.table i).heap (k.self i) m.conn;
        next_timer = m.next_timer;
        log = m.log;
      } in
    subst IsValid (sym closed)
      (put_conn-IsValid t r m.conn m.next_timer m.log k.port k.local k.remote k.reports v)

pub on_link-IsValid :
    (t : Table) (r : ℕ) (f : Link → Link)
    → ((l : Link) → Keeps l (f l))
    → IsValid t
    → IsValid (on_link t r f)
unfolding on_link
on_link-IsValid t r f h v = close_link-IsValid t r (f (open_link t r)) (h (open_link t r)) v

pub note-IsValid :
    (t : Table) (port : ℕ) (f : Frame) → IsValid t → IsValid (note t (send_ax25 port f))
note-IsValid t port f v = record {
  bounded = v.bounded;
  bears = v.bears;
  unique = v.unique;
  allocated = v.allocated;
  counted = v.counted;
}

pub table_send-IsValid :
    (t : Table) (port : ℕ) (f : Frame) → IsValid t → IsValid (table_send t port f)
unfolding table_send
table_send-IsValid t port f v = note-IsValid t port _ v

cancelled_all :
    (p : ℕ) (c : Conn) (log : List Effect)
    → reported p (cancelled c.t3 (cancelled c.t2 (cancelled c.t1 log))) ≡ reported p log
cancelled_all p c log =
    reported-cancelled p c.t3 _ ∙ reported-cancelled p c.t2 _ ∙ reported-cancelled p c.t1 log

remove_entry-IsValid :
    (t : Table) (port : ℕ) (local remote : Bytes) (r : ℕ)
    → find_key (make_key port local remote) t.conns ≡ some r
    → IsValid t
    → IsValid (remove t port local remote)
unfolding remove make_key
remove_entry-IsValid t port local remote r e v =
    let k = make_key port local remote in
    rw (e, remove)
      (record {
        bounded = omega (arith, length-delete_key k t.conns, v.bounded);
        bears = delete_key-All k _ t.conns (
            update-Bears t.heap r (record (t.heap r) { t1 = none; t2 = none; t3 = none }) t.conns
              refl refl refl v.bears);
        unique = delete_key-UniqueKeys k t.conns v.unique;
        allocated = delete_key-All k _ t.conns v.allocated;
        counted = λ p.
            ground (
              arith,
              v.counted p,
              cancelled_all p (t.heap r) t.log,
              sessions-delete_key k p t.conns,
            );
      })

pub remove-IsValid :
    (t : Table) (port : ℕ) (local remote : Bytes) → IsValid t → IsValid (remove t port local remote)
unfolding remove
remove-IsValid t port local remote v =
    elim (Option-cases (find_key (make_key port local remote) t.conns)) [
      | inl e ↦ rw (e, remove) v
      | inr (r, e) ↦ remove_entry-IsValid t port local remote r e v
    ]

pub finish-IsValid :
    (t : Table) (r : ℕ) (m : Link) (gone : Bool)
    → Keeps (open_link t r) m
    → IsValid t
    → IsValid (finish (m, gone))
unfolding finish remove_conn
finish-IsValid t r m false k v = close_link-IsValid t r m k v
finish-IsValid t r m true k v = remove-IsValid _ _ _ _ (close_link-IsValid t r m k v)

create-IsValid :
    (t : Table) (port : ℕ) (local remote : Bytes)
    → find_key (make_key port local remote) t.conns ≡ none
    → leb max_connections (length t.conns) ≡ false
    → IsValid t
    → IsValid (get_or_create t port local remote).0
unfolding get_or_create make_key sessions
create-IsValid t port local remote e room v =
    rw (e, get_or_create)
      (rw room (record {
        bounded = ground arith;
        bears = (
          record { port = ground arith; local = ground arith; remote = ground arith },
          fresh-Bears t.heap t.next_conn _ t.conns v.allocated v.bears,
        );
        unique = (e, v.unique);
        allocated = (omega arith, Allocated-suc t.next_conn t.conns v.allocated);
        counted = λ p. ground (arith, v.counted p);
      }))

pub get_or_create-IsValid :
    (t : Table) (port : ℕ) (local remote : Bytes)
    → IsValid t
    → IsValid (get_or_create t port local remote).0
unfolding get_or_create
get_or_create-IsValid t port local remote v =
    elim (Option-cases (find_key (make_key port local remote) t.conns)) [
      | inr (r, e) ↦ rw (e, get_or_create) v
      | inl e ↦ elim (Bool-cases (leb max_connections (length t.conns))) [
        | inl full ↦ rw (e, get_or_create) (rw full v)
        | inr room ↦ create-IsValid t port local remote e room v
      ]
    ]
