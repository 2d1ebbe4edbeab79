-- ===== src/Server/Paging/Tokens.antt =====
-- src/server/metadata_server.cpp: following the page tokens of `GetPartitions` gives the listing.
use mathlib.Core.List.{map-append}
use ice_log.Prelude.{
  ℕ, zero, suc, ◌<◌, ◌≡◌, ◌≢◌, refl, ap, sym, ◌∙◌, List, [], ◌∷◌, ◌++◌, some, All, arith, take,
  length, map, subst,
}
use ice_log.Prelude.Int.{ℤ, pos}
use ice_log.Prelude.Words.{i64_bound}
use ice_log.Text.{Text}
use ice_log.Text.Decimal.{parse_sign, skip_space, stoll, to_string_signed}
use ice_log.Text.RoundTrip.{InRange, stoll-to_string}
use ice_log.Outcome.{ok}
use ice_log.Blocking.{continue, pure}
use ice_log.Postgres.{Postgres}
use ice_log.ConnectionPool.{Libpq}
use ice_log.ConnectionPool.Capacity.{IsUp}
use ice_log.PgClient.{PartitionRow}
use ice_log.PartitionRegistry.Listing.{
  after-All, last_id-All, after-keeps, after, Ascending, last_id, drop, after-Ascending,
  after-after, after-page, last_id-le, take-drop, length-drop_le,
}
use ice_log.System.{System}
use ice_log.Server.{replied, PartitionInfo}
use ice_log.Server.Tables.{partition_info}
use ice_log.Server.Partitions.{get_partitions, last_id_of, caught, last_token, partition_list}
use ice_log.Server.Ends.{IsIdle}
use ice_log.Server.Paging.{IsListing, request, and_rest, follow, one_page}

-- The test for an empty token changes nothing.
last_id_of-caught : (token : Text) → last_id_of token ≡ caught (stoll token)
unfolding last_id_of stoll parse_sign skip_space caught
last_id_of-caught [] = refl
last_id_of-caught (c ∷ token) = refl

module _ (pg : Postgres) (pq : Libpq) (table_name : Text) (snapshot_id n : ℕ) where
  -- The client gets these rows, and leaves an idle server with the same database.
  abbrev pub Lists : ℕ → Text → System pg pq → List PartitionRow → Type 0
  Lists fuel token s rows =
      (end : System pg pq) × (follow pg pq fuel (request table_name snapshot_id n token) s
        ≡ some (ok (map partition_info rows), end))
      × IsIdle pg pq end
      × (end.db ≡ s.db)

  -- The handler answers with these rows.
  abbrev pub Answers : Text → System pg pq → List PartitionRow → System pg pq → Type 0
  Answers token s rows next =
      get_partitions pg pq (request table_name snapshot_id n token) s
      ≡ some (ok (replied (partition_list (pos (suc n)) rows)), next)

  last_page :
      (fuel : ℕ) (token : Text) (s next : System pg pq)
      → Answers token s [] next
      → IsIdle pg pq next
      → next.db ≡ s.db
      → Lists (suc fuel) token s []
  unfolding follow partition_list
  last_page fuel token s next e idle same =
      let rest =
        λ (page_token : Text). follow pg pq fuel (request table_name snapshot_id n page_token) in
      (next, ap (λ v. continue v (and_rest pg pq rest)) e, idle, same)

  more_pages :
      (fuel : ℕ) (token : Text) (s next : System pg pq) (p : PartitionRow)
      (page left : List PartitionRow)
      → Answers token s (p ∷ page) next
      → next.db ≡ s.db
      → Lists fuel (last_token (p ∷ page)) next left
      → Lists (suc fuel) token s (p ∷ page ++ left)
  unfolding follow partition_list
  more_pages fuel token s next p page left e same (end, follows, idle, same') =
      let rest =
        λ (page_token : Text). follow pg pq fuel (request table_name snapshot_id n page_token) in
      let infos = map partition_info (p ∷ page) in
      let gather = λ (more : List PartitionInfo) (s' : System pg pq). pure (infos ++ more) s' in
      (
        end,
        ap (λ v. continue v (and_rest pg pq rest)) e
            ∙ ap (λ v. continue v gather) follows
            ∙ ap (λ l. some (ok l, end)) (sym (map-append partition_info (p ∷ page) left)),
        idle,
        same' ∙ same,
      )

  last_id_of-last_token :
      (p : PartitionRow) (page : List PartitionRow)
      → InRange i64_bound (last_id p page)
      → last_id_of (last_token (p ∷ page)) ≡ last_id p page
  unfolding last_token caught
  last_id_of-last_token p [] h =
      last_id_of-caught (to_string_signed p.partition_id)
      ∙ ap caught (stoll-to_string p.partition_id h)
  last_id_of-last_token p (q ∷ page) h = last_id_of-last_token q page h

  module _ (table_id : ℕ) (rows : List PartitionRow) (up : IsUp pq) (ne : snapshot_id ≢ 0) where
    -- One page in the middle of a listing, with the token of the last page.
    answered :
        (token : Text) (last : ℤ) (s : System pg pq) (found : List PartitionRow)
        → IsListing pg s.db table_name snapshot_id table_id rows
        → last_id_of token ≡ last
        → InRange i64_bound last
        → IsIdle pg pq s
        → after last rows ≡ found
        → (next : System pg pq) × Answers token s (take (suc n) found) next
          × IsIdle pg pq next
          × (next.db ≡ s.db)
    answered token last s found l t h idle f =
        let in_range = subst (InRange i64_bound) (sym t) h in
        let (next, e, idle', same) =
          one_page pg pq table_name token snapshot_id table_id rows n s up ne l in_range idle in
        let page = λ (k : List PartitionRow). partition_list (pos (suc n)) (take (suc n) k) in
        (
          next,
          e ∙ ap (λ k. some (ok (replied (page k)), next)) (ap (λ k. after k rows) t ∙ f),
          idle',
          same,
        )

    follow_from :
        (fuel : ℕ) (token : Text) (last : ℤ) (s : System pg pq) (found : List PartitionRow)
        → IsListing pg s.db table_name snapshot_id table_id rows
        → last_id_of token ≡ last
        → InRange i64_bound last
        → IsIdle pg pq s
        → after last rows ≡ found
        → length found < fuel
        → Lists fuel token s found
    follow_from zero token last s found l t h idle f enough = absurd (omega (arith, enough))
    follow_from (suc fuel) token last s [] l t h idle f enough =
        let (next, e, idle', same) = answered token last s [] l t h idle f in
        last_page fuel token s next e idle' same
    follow_from (suc fuel) token last s (p ∷ found) l t h idle f enough =
        let (next, e, idle', same) = answered token last s (p ∷ found) l t h idle f in
        let above = subst (Ascending last) f (after-Ascending (pos 0) last rows l.ascending) in
        let in_range =
          subst (All (λ p. InRange i64_bound p.partition_id)) f
            (after-All (λ p. InRange i64_bound p.partition_id) last rows l.in_range) in
        let k = last_id p (take n found) in
        let k_in_range = last_id-All (InRange i64_bound) p n found in_range.0 in_range.1 in
        let grows = last_id-le last p n found above.1 in
        let left =
          sym (after-after last k rows (omega (arith, grows, above.0)))
          ∙ ap (after k) f
          ∙ after-page p n found above.1 in
        let follows =
          follow_from fuel (last_token (p ∷ take n found)) k next (drop n found)
            (subst (λ d. IsListing pg d table_name snapshot_id table_id rows) (sym same) l)
            (last_id_of-last_token p (take n found) k_in_range) k_in_range idle' left
            (omega (arith, enough, length-drop_le n found)) in
        subst (Lists (suc fuel) token s) (ap (◌∷◌ p) (take-drop n found))
          (more_pages fuel token s next p (take n found) (drop n found) e same follows)

    -- On an idle server that is up, whose database lists the rows of a table at a snapshot that is not 0: a client
    -- that asks for pages of at least one row, and follows their tokens from the empty one to an empty page, gets
    -- each row once and in the order of the listing, whatever the size of the pages; more pages than there are rows
    -- are enough, nothing waits, and the server is idle again.
    pub follow_lem :
        (fuel : ℕ) (s : System pg pq)
        → IsListing pg s.db table_name snapshot_id table_id rows
        → IsIdle pg pq s
        → length rows < fuel
        → Lists fuel [] s rows
    unfolding last_id_of
    follow_lem fuel s l idle enough =
        follow_from fuel [] (pos 0) s rows l refl (omega arith, omega arith) idle
          (after-keeps (pos 0) (pos 0) rows (omega arith) l.ascending) enough
