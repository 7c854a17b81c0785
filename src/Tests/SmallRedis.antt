-- ===== src/Tests/SmallRedis.antt =====
-- A Redis with one entry and its liveness key, for the scripts of src/smallage/core/scripts.
use litestar_rs.Prelude.{
  ℕ, ◌-◌, Text, Bytes, text, Bool, true, false, not, ◌&&◌, Option, some, none, List, [], ◌∷◌, refl,
  arith, ltb, All, same, same_refl, same_iff, member, if◌then◌else◌,
}
use litestar_rs.Prelude.Int.{pos, pos_part, leb_ℤ}
use litestar_rs.Core.Envelope.{Fields}
use litestar_rs.Prelude.Dict.{lookup}
use litestar_rs.Core.Scripts.{Streams}
use litestar_rs.Core.Scripts.Keeping
use litestar_rs.Core.Scripts.Claiming

pub record Small : Type 0 where
  pub there : Bool
  pub new : Bool
  pub owner : Option Text
  pub alive : Option ℕ

abbrev pub is_some : {A : Type 0} → Option A → Bool
is_some none = false
is_some (some a) = true

abbrev pub after_ms : ℕ → Option ℕ → Option ℕ
after_ms n none = none
after_ms n (some m) = if ltb n m then some (m - n) else none

abbrev pub listed : Option Text → List Fields
listed none = []
listed (some owner) = ((text "name", owner) ∷ (text "pending", text "1") ∷ []) ∷ []

module _ (the_stream the_group the_key : Text) (the_id : Bytes) where
  abbrev pub small : Streams Small
  small = record {
    create_group = λ s g r. r;
    add = λ s fields r. r;
    read_group = λ g c streams count r.
        if same g the_group && (member the_stream streams && (r.there && r.new))
        then record r { new = false; owner = some c }
        else r;
    xack = λ s g ids r.
        if same s the_stream && (same g the_group && member the_id ids)
        then (pos 1, record r { owner = none })
        else (pos 0, r);
    xdel =
        λ s ids r. if same s the_stream && member the_id ids then record r { there = false } else r;
    xclaim = λ s g c min_idle id r.
        if same s the_stream && (same g the_group && (same id the_id && is_some r.owner))
        then ((the_id, []) ∷ [], record r { owner = some c })
        else ([], r);
    trim = λ s limit r.
        if same s the_stream && not (leb_ℤ limit (pos 500)) then record r { there = false } else r;
    xinfo_consumers = λ s g r. listed r.owner;
    delconsumer = λ s g name r. r;
    set_px =
        λ k value ttl r. if same k the_key then record r { alive = some (pos_part ttl) } else r;
    set_nx_px = λ k value ttl r.
        if same k the_key && not (is_some r.alive)
        then record r { alive = some (pos_part ttl) }
        else r;
    expire = λ k ttl r.
        if same k the_key && is_some r.alive then record r { alive = some (pos_part ttl) } else r;
    exists = λ k r. same k the_key && is_some r.alive;
    del = λ keys r. if member the_key keys then record r { alive = none } else r;
    pass = λ n r. record r { alive = after_ms n r.alive };
    tonumber = λ value. if same value (text "1") then some (pos 1) else none;
    added_ms = λ id. pos 500;
    has = λ s id r. r.there;
    fresh = λ s g id r. r.new;
    holder = λ s g id r. r.owner;
    left = λ k r. if same k the_key then r.alive else none;
  }

  told :
      (owner : Option Text) (r : Small)
      → All (Keeping.IsTold small the_stream the_group the_id r) (listed owner)
  unfolding lookup same
  told none r = tt
  told (some owner) r =
      (((refl, (refl, tt)), λ name pending named some_pending held none_left. cc), tt)

  pub kept_laws : Keeping.IsDocumented small the_stream the_group the_id
  kept_laws = record {
    create_apart = λ s g r. (refl, refl, refl);
    add_apart = λ s fields r there. (refl, refl, refl);
    read_delivers = λ g c streams count r. ground arith;
    xack_apart = λ s g ids r h. ground (arith, same_iff s the_stream);
    xdel_apart = λ s ids r h. ground (arith, same_iff s the_stream);
    xclaim_moves = λ s g c min_idle other r there. ground arith;
    trim_apart = λ s limit r h. ground (arith, same_iff s the_stream);
    delconsumer_apart = λ s g name r h. (refl, refl, refl);
    told = λ r. told r.owner r;
    set_apart = λ key value ttl r h. ground arith;
    set_nx_apart = λ key value ttl r h. ground arith;
    expire_apart = λ key ttl r h. ground arith;
    del_apart = λ keys r h. ground arith;
    pass_apart = λ n r. (refl, refl, refl);
  }

  pub key_laws : Claiming.IsExpiring small the_key
  key_laws = record {
    exists_left = λ r n h. ground (arith, same_refl the_key);
    left-set_px = λ value ttl r h. ground (arith, same_refl the_key);
    left-set_px_other = λ k value ttl r h. ground arith;
    left-expire = λ ttl n r h now. ground (arith, same_refl the_key);
    left-expire_other = λ k ttl r h. ground arith;
    left-set_nx = λ k value ttl n r now. ground (arith, same_refl the_key);
    left-del = λ keys r h. ground arith;
    left-pass = λ m n r h now. ground (arith, same_refl the_key);
    left-create = λ s g r. refl;
    left-add = λ s fields r. refl;
    left-read = λ g c streams count r. ground arith;
    left-xack = λ s g ids r. ground arith;
    left-xdel = λ s ids r. ground arith;
    left-xclaim = λ s g c min_idle id r. ground arith;
    left-trim = λ s limit r. ground arith;
    left-delconsumer = λ s g name r. refl;
  }
