-- ===== src/Tx/Exclusion.antt =====
-- One call at a time on a transaction.
use tamarackdb.Prelude.{
  ◌+◌, ◌≡◌, ◌≢◌, refl, ap, ◌∙◌, true, false, Option, none, some, arith, inl, inr, Bool-cases,
}
use tamarackdb.Prelude.Eq.{Bytes, bytes_eq, bytes_beq, bytes_beq_iff}
use tamarackdb.Prelude.Assoc.{Assoc, lookup, lookup-insert, lookup-erase, lookup-insert_self}
use tamarackdb.Prelude.Exec.{ok, err}
use tamarackdb.Tx.State.{Transaction, World, busy_error, TxEnv}
use tamarackdb.Tx.Calls.{
  lock, begin_locked, begin, new_transaction, acquire, acquire_found, release, put_back, end,
}
use tamarackdb.Tx.Expiry.{lookup-lock_busy}

-- The transaction is in the registry and busy.
abbrev pub Held : Bytes → World → Type 0
Held id w = (t : Transaction) × (lookup id w.txs ≡ some t) × (t.busy ≡ true)

acquire_found-Held :
    (te : TxEnv) (id j : Bytes) (o : Option Transaction) (w : World)
    → lookup j w.txs ≡ o
    → Held id w
    → Held id (acquire_found te j o w).1
acquire_found-Held te id j none w e h = h
acquire_found-Held te id j (some u) w e (t, found, busy) = elim (Bool-cases u.busy) [
  | inl is_busy ↦ (t, ground (arith, is_busy, found), busy)
  | inr free ↦ elim (Bool-cases (bytes_beq j id)) [
    | inl same ↦ absurd (ground (arith, (bytes_beq_iff j id).0 same, e, found, busy, free))
    | inr other ↦ (
      t,
      ground (arith, free, other, found, lookup-insert j id (record u { busy = true }) w.txs),
      busy,
    )
  ]
]

acquire_found-taken :
    (te : TxEnv) (id : Bytes) (o : Option Transaction) (w w' : World) (t : Transaction)
    → acquire_found te id o w ≡ (ok t, w')
    → Held id w'
acquire_found-taken te id none w w' t h = absurd (ground (arith, h))
acquire_found-taken te id (some u) w w' t h = elim (Bool-cases u.busy) [
  | inl is_busy ↦ absurd (ground (arith, h, is_busy))
  | inr free ↦ (
    record u { busy = true },
    ground (arith, h, free, lookup-insert_self id (record u { busy = true }) w.txs),
    refl,
  )
]

acquire-taken :
    (te : TxEnv) (w w' : World) (id : Bytes) (t : Transaction)
    → acquire te id w ≡ (ok t, w')
    → Held id w'
unfolding acquire
acquire-taken te w w' id t h =
    acquire_found-taken te id (lookup id (lock te w).txs) (lock te w) w' t h

lock-Held : (te : TxEnv) (id : Bytes) (w : World) → Held id w → Held id (lock te w)
lock-Held te id w (t, found, busy) = (t, lookup-lock_busy te w id t found busy, busy)

acquire-Held : (te : TxEnv) (id j : Bytes) (w : World) → Held id w → Held id (acquire te j w).1
unfolding acquire
acquire-Held te id j w h =
    acquire_found-Held te id j (lookup j (lock te w).txs) (lock te w) refl (lock-Held te id w h)

-- Another key is written, or erased.
begin_locked-Held :
    (te : TxEnv) (id j : Bytes) (w : World) → j ≢ id → Held id w → Held id (begin_locked te j w).1
unfolding begin_locked
begin_locked-Held te id j w other (t, found, busy) = (
  t,
  ground (
    arith,
    found,
    other,
    (bytes_beq_iff j id).0,
    lookup-insert j id (new_transaction te j (te.now w.ticks)) w.txs,
  ),
  busy,
)

end-Held :
    (te : TxEnv) (id : Bytes) (u : Transaction) (w : World)
    → u.id ≢ id
    → Held id w
    → Held id (end te u w)
unfolding end
end-Held te id u w other h =
    let (t, found, busy) = lock-Held te id w h in
    (
      t,
      ground (arith, found, other, (bytes_beq_iff u.id id).0, lookup-erase u.id id (lock te w).txs),
      busy,
    )

put_back-other :
    (te : TxEnv) (id : Bytes) (u : Transaction) (o : Option Transaction)
    (txs : Assoc Bytes Transaction)
    → u.id ≢ id
    → lookup id (put_back te u o txs) ≡ lookup id txs
put_back-other te id u none txs other = refl
put_back-other te id u (some old) txs other =
    ground (arith, other, (bytes_beq_iff u.id id).0, lookup-insert u.id id u txs)

release-Held :
    (te : TxEnv) (id : Bytes) (u : Transaction) (w : World)
    → u.id ≢ id
    → Held id w
    → Held id (release te u w)
unfolding release
release-Held te id u w other h =
    let (t, found, busy) = lock-Held te id w h in
    let freed = record u { busy = false; last_used = te.now (lock te w).ticks } in
    (
      t,
      put_back-other te id freed (lookup u.id (lock te w).txs) (lock te w).txs other ∙ found,
      busy,
    )

begin-Held :
    (te : TxEnv) (id : Bytes) (w : World)
    → te.new_id w.ids ≢ id
    → Held id w
    → Held id (begin te w).1
unfolding begin
begin-Held te id w fresh h =
    begin_locked-Held te id (te.new_id w.ids) (lock te (record w { ids = w.ids + 1 })) fresh
      (lock-Held te id (record w { ids = w.ids + 1 }) h)

-- A step of the rest of the server while the transaction `id` is held: a new transaction with another
-- identifier, an attempt on any transaction, `id` included, what the calls on other transactions do,
-- the lock taken with what it expires, and any change of the rest of the state: the server, the
-- clock, the counters and the pause.
pub data Other (te : TxEnv) (id : Bytes) (w : World) : World → Type 0 where
  begins : te.new_id w.ids ≢ id → Other te id w (begin te w).1
  acquires : (j : Bytes) → Other te id w (acquire te j w).1
  releases : (u : Transaction) → u.id ≢ id → Other te id w (release te u w)
  ends : (u : Transaction) → u.id ≢ id → Other te id w (end te u w)
  locks : Other te id w (lock te w)
  keeps : {v : World} → v.txs ≡ w.txs → Other te id w v

pub data Others (te : TxEnv) (id : Bytes) (w : World) : World → Type 0 where
  here : Others te id w w
  next : {u v : World} → Others te id w u → Other te id u v → Others te id w v

Other-Held : {te : TxEnv} {id : Bytes} {w v : World} → Other te id w v → Held id w → Held id v
Other-Held {te} {id} {w} (begins fresh) h = begin-Held te id w fresh h
Other-Held {te} {id} {w} (acquires j) h = acquire-Held te id j w h
Other-Held {te} {id} {w} (releases u other) h = release-Held te id u w other h
Other-Held {te} {id} {w} (ends u other) h = end-Held te id u w other h
Other-Held {te} {id} {w} locks h = lock-Held te id w h
Other-Held {id = id} (keeps same) (t, found, busy) = (t, ap (lookup id) same ∙ found, busy)

Others-Held : {te : TxEnv} {id : Bytes} {w v : World} → Others te id w v → Held id w → Held id v
Others-Held here h = h
Others-Held (next before step) h = Other-Held step (Others-Held before h)

acquire-busy :
    (te : TxEnv) (id : Bytes) (w : World) → Held id w → (acquire te id w).0 ≡ err busy_error
unfolding acquire
acquire-busy te id w h = let (t, found, busy) = lock-Held te id w h in ground (arith, found, busy)

-- One call at a time. After a call has acquired a transaction, and any number of steps of the rest
-- of the server, which neither release nor end this transaction, over any length of time, each
-- other call on it gets the busy error.
pub acquire_excludes :
    (te : TxEnv) (w w' v : World) (id : Bytes) (t : Transaction)
    → acquire te id w ≡ (ok t, w')
    → Others te id w' v
    → (acquire te id v).0 ≡ err busy_error
acquire_excludes te w w' v id t taken others =
    acquire-busy te id v (Others-Held others (acquire-taken te w w' id t taken))
