-- ===== src/Peyk/Frame/Bounds.antt =====
-- What `read_frame` takes from any input, well formed or not, and what it refuses.
use gozara.Base.{ℕ, ◌≤◌, ◌<◌, ◌≡◌, List, [], ◌++◌, length, length-take, take-append-drop, arith}
use gozara.Peyk.Link.{Link, done, fail, read_exact, unexpected_eof, frame_exceeds_limit}
use gozara.Peyk.Link.Bind.{>>=-eq-done, >>=_fail}
use gozara.Peyk.Frame.{from_be_bytes, read_frame}
use gozara.Peyk.Frame.RoundTrip.{read_exact-append}

module _ {M : Type 0} where
  pub read_exact-consumes :
      (n : ℕ) (s t : Link M) (bytes : List ℕ)
      → read_exact n s ≡ done bytes t
      → (length bytes ≡ n) × (s.input ≡ bytes ++ t.input) × (t ≡ record s { input = t.input })
  unfolding read_exact
  read_exact-consumes n s t bytes h =
      ground (arith, length-take n s.input, take-append-drop n s.input)

  -- If `read_frame` returns bytes, they are no more than the limit, they stood in the input
  -- behind a header of four bytes that names their number, and nothing but the input has
  -- changed.
  pub read_frame-consumes :
      (max_len : ℕ) (s t : Link M) (bytes : List ℕ)
      → read_frame max_len s ≡ done bytes t
      → (length bytes ≤ max_len)
        × ((header : List ℕ) × (length header ≡ 4)
            × (from_be_bytes header ≡ length bytes)
            × (s.input ≡ header ++ (bytes ++ t.input)))
        × (t ≡ record s { input = t.input })
  unfolding read_frame
  read_frame-consumes max_len s t bytes h =
      let (header, u, e, k) = >>=-eq-done (read_exact 4) _ s h in
      let (four, split, same) = read_exact-consumes 4 s u header e in
      let more = read_exact-consumes (from_be_bytes header) u t bytes in
      (
        ground (arith, more),
        (header, four, ground (arith, more), ground (arith, more)),
        ground (arith, more),
      )

  pub read_frame_exceeds :
      (max_len : ℕ) (s : Link M) (header rest : List ℕ)
      → length header ≡ 4
      → s.input ≡ header ++ rest
      → max_len < from_be_bytes header
      → read_frame max_len s
        ≡ fail (frame_exceeds_limit (from_be_bytes header) max_len) (record s { input = rest })
  unfolding read_frame
  read_frame_exceeds max_len s header rest hn hs h =
      ground (arith, read_exact-append header rest 4 s hn hs)

  pub read_exact_short :
      (n : ℕ) (s : Link M)
      → length s.input < n
      → read_exact n s ≡ fail unexpected_eof (record s { input = [] })
  unfolding read_exact
  read_exact_short n s h = ground arith

  pub read_frame_short :
      (max_len : ℕ) (s : Link M)
      → length s.input < 4
      → read_frame max_len s ≡ fail unexpected_eof (record s { input = [] })
  unfolding read_frame
  read_frame_short max_len s h = >>=_fail (read_exact 4) _ s (read_exact_short 4 s h)
