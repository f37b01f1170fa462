-- ===== src/Demo/Keys.antt =====
-- The keys that the processes of a cluster make up are all different, until a process has made 2 ^
-- 32.
pub mod Counted
use Prim.Native.Nat.{bit_and, bit_or}
use bf_multiraft.Base.{ℕ, zero, suc, ◌+◌, ◌*◌, ◌%◌, ◌^◌, ◌≡◌, ◌<◌, ap, ◌∙◌, arith}
use bf_multiraft.Base.Bits.{and-mask, or-shifted}
use bf_multiraft.Demo.{KeySource, key_source, next_idem}

-- The key that the call of `next_idem` after `n` others gives.
abbrev pub nth_key : ℕ → KeySource → ℕ
nth_key zero s = (next_idem s).0
nth_key (suc n) s = nth_key n (next_idem s).1

-- Below 2 ^ 32 nodes the two fields of a key do not overlap.
key-fields :
    (node idem : ℕ)
    → node < 2 ^ 32
    → bit_or (node * 2 ^ 32 % 2 ^ 64) (bit_and idem 0xffffffff) ≡ node * 2 ^ 32 + idem % 2 ^ 32
key-fields node idem h =
    ap (λ x. bit_or x (bit_and idem 0xffffffff)) base
    ∙ ap (bit_or (node * 2 ^ 32)) (and-mask 32 idem)
    ∙ or-shifted 32 node (idem % 2 ^ 32) (omega arith)
  where
    base : node * 2 ^ 32 % 2 ^ 64 ≡ node * 2 ^ 32
    base = omega arith

nth_key-fields :
    (node n idem : ℕ)
    → node < 2 ^ 32
    → nth_key n (record { idem = idem; node_id_base = node * 2 ^ 32 % 2 ^ 64 })
      ≡ node * 2 ^ 32 + (idem + n) % 2 ^ 32
unfolding next_idem
nth_key-fields node zero idem h = omega (arith, key-fields node idem h)
nth_key-fields node (suc n) idem h = omega (arith, nth_key-fields node n ((idem + 1) % 2 ^ 64) h)

-- Two of the first 2 ^ 32 keys that processes with numbers below 2 ^ 32 make up are the same only
-- if one process made both, as the same one of its keys. The process of `run_cluster` has the
-- number 0.
pub nth_key-Unique :
    (node node' n n' : ℕ)
    → node < 2 ^ 32
    → node' < 2 ^ 32
    → n < 2 ^ 32
    → n' < 2 ^ 32
    → nth_key n (key_source node) ≡ nth_key n' (key_source node')
    → (node ≡ node') × (n ≡ n')
nth_key-Unique node node' n n' h h' l l' e =
    let f = nth_key-fields node n 1 h in
    let g = nth_key-fields node' n' 1 h' in (omega (arith, e, f, g), omega (arith, e, f, g))
