-- ===== src/Allocator/Sessions/Goes.antt =====
-- A client of the block allocator: any sequence of calls keeps its session safe.
use shm_next.Base.{
  ℕ, ◌^◌, ◌≤◌, ◌<◌, ◌≡◌, refl, Option, some, List, [], ◌∷◌, has, Bool-cases, inl, inr,
}
use shm_next.Allocator.Count
use shm_next.Allocator.Pointers.{deallocate-Released}
use shm_next.Allocator.Take.{allocate-total}
use shm_next.Allocator.Sessions.{Session, Request, take, give, serve, run, Modest, block_of, IsSafe}
use shm_next.Allocator.Sessions.Safe.{
  after_take, after_give, Served-IsSafe, Refused-IsSafe, Released-IsSafe,
}

-- A safe session goes on safely, whatever modest request comes.
pub record Goes (o : Option Session) : Type 0 where
  pub session : Session
  pub blocks : List ℕ
  pub list : List ℕ
  pub returns : o ≡ some session
  pub safe : IsSafe session blocks list

serve_take-Goes :
    (s : Session) (bs xs : List ℕ) (size n : ℕ)
    → IsSafe s bs xs
    → 0 < size
    → size ≤ 2 ^ 61
    → n ≤ 2 ^ 61
    → Goes (serve (take size n) s)
unfolding serve
serve_take-Goes s bs xs size n safe pos small h =
    let (k, _, _, result) = allocate-total s.allocator size n bs xs safe.valid pos small h in
    elim result [
      | inl t ↦ record {
        session = after_take t.p t.after s;
        blocks = t.blocks;
        list = t.list;
        returns = rw (t.returns, serve);
        safe = Served-IsSafe s bs xs safe size k _ t pos;
      }
      | inr f ↦ record {
        session = record s { allocator = Count.failed (Count.allocate_call s.allocator) };
        blocks = bs;
        list = xs;
        returns = rw (f.throws, serve);
        safe = Refused-IsSafe s bs xs safe _;
      }
    ]

serve_give-Goes : (s : Session) (bs xs : List ℕ) (p : ℕ) → IsSafe s bs xs → Goes (serve (give p) s)
unfolding serve
serve_give-Goes s bs xs p safe = elim (Bool-cases (has p s.held)) [
  | inr out ↦ record { session = s; blocks = bs; list = xs; returns = rw out; safe = safe }
  | inl i ↦
      let d =
        deallocate-Released s.allocator bs xs (block_of s.allocator p) p safe.valid
          (safe.live p i) in
      record {
        session = after_give p d.after s;
        blocks = d.blocks;
        list = d.list;
        returns = rw (i, d.returns);
        safe = Released-IsSafe s bs xs safe p _ d i;
      }
]

-- Whatever allocations of 1 to 2 ^ 61 bytes, at alignments of at most 2 ^ 61, and releases of held
-- pointers a safe session serves, in any order: every call ends, no `deallocate` throws, and the
-- session is safe at the end.
pub run-Goes :
    (rs : List Request) (s : Session) (bs xs : List ℕ)
    → IsSafe s bs xs
    → Modest rs
    → Goes (run rs s)
unfolding run
run-Goes [] s bs xs safe m = record {
  session = s;
  blocks = bs;
  list = xs;
  returns = refl;
  safe = safe;
}
run-Goes (take size n ∷ rs) s bs xs safe (pos, small, h, m) =
    let g = serve_take-Goes s bs xs size n safe pos small h in
    rw (g.returns, run) (run-Goes rs g.session g.blocks g.list g.safe m)
run-Goes (give p ∷ rs) s bs xs safe m =
    let g = serve_give-Goes s bs xs p safe in
    rw (g.returns, run) (run-Goes rs g.session g.blocks g.list g.safe m)
