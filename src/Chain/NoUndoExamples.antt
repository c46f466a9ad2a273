-- ===== src/Chain/NoUndoExamples.antt =====
-- After the reorganisation, the fork that was replaced becomes longer again.
use crypt_bank.Prelude.{
  ℕ, ◌+◌, ◌%◌, ◌^◌, ◌≤◌, ◌≡◌, refl, sym, ap, ◌∙◌, ◌≢◌, none, some, [], ◌∷◌, arith, length,
  bytes_beq, bytes_eq,
}
use mathlib.Core.Path.{subst}
use crypt_bank.Prelude.Map.{find, assign}
use crypt_bank.Proto.Instance.{word_proto}
use crypt_bank.Crypto
use crypt_bank.Crypto.Constants.{constants}
use crypt_bank.Primitives.{
  Block, new_transaction, get_transactions, serialize_block, header_message, transaction_message,
  input_message, output_message, block_message,
}
use crypt_bank.Primitives.InRange.{IsBlock}
use crypt_bank.Records.{serialize_undo_block, rows, coin_message}
use crypt_bank.Env.{block_hash}
use crypt_bank.Coins
use crypt_bank.Coins.Apply.{apply_block}
use crypt_bank.Writer
use crypt_bank.Writer.{undo_path, make_undo_block}
use crypt_bank.Writer.Store.{block_number-write_block}
use crypt_bank.Examples.{test_env, test_header, test_transaction}
use crypt_bank.Chain.{Chain, look_up}
use crypt_bank.Chain.Handle.{new_chain, construct_genesis_block, handle_block}
use crypt_bank.Chain.Active.{stored}
use crypt_bank.Chain.Side.{height_above}
use crypt_bank.Chain.History.{Kept, IsHistory, IsHistory-IsSpine}
use crypt_bank.Chain.Walk.{ChainKeeps}
use crypt_bank.Chain.Ancestor.{height-look_up}
use crypt_bank.Chain.Aside.{Fits, aside, aside_number, aside_find, aside-Kept, aside-KeptAll}
use crypt_bank.Chain.Beside.{aside-IsHistory}
use crypt_bank.Chain.Longer.{IsLonger}
use crypt_bank.Chain.Overtaken.{TookOver, handle_block-overtaken}
use crypt_bank.Chain.NoUndo.{
  block_path-nonempty, aside-NoUndo, TookOver-NoUndo, handle_block-NoUndo,
}
use crypt_bank.Chain.Examples.{genesis_hash}
use crypt_bank.Chain.HistoryExamples.{first_chain}
use crypt_bank.Chain.RivalExamples.{
  spending_block, rival_block, third_block, rival_hash, spending_hash, second_coins, can_again,
  spending_in_range, spending-Storable, second_coin_database, second_chain, second-IsHistory,
  second_number,
}
use crypt_bank.Chain.OvertakeExamples.{
  third_chain, rival_in_range, rival-Fits, third-IsLonger, third-IsHistory, third-Undoable,
}

-- On the spending block, whose hash is 3150.
abbrev back_block : Block
back_block = record {
  block_header = record test_header { previous_block_hash = 3150 };
  transactions = test_transaction ∷ [];
}

-- On the block before, whose hash is 4669.
abbrev last_block : Block
last_block = record {
  block_header = record test_header { previous_block_hash = 4669 };
  transactions = test_transaction ∷ [];
}

back_hash : block_hash test_env back_block ≡ 4669
unfolding block_hash Crypto.hash serialize_block block_message header_message transaction_message
    input_message output_message word_proto constants
back_hash = refl

third_hash_is : block_hash test_env third_block ≡ 3744
unfolding block_hash Crypto.hash serialize_block block_message header_message transaction_message
    input_message output_message word_proto constants
third_hash_is = refl

last_hash_is : block_hash test_env last_block ≡ 4226
unfolding block_hash Crypto.hash serialize_block block_message header_message transaction_message
    input_message output_message word_proto constants
last_hash_is = refl

sizes :
    (length (serialize_block test_env.proto back_block) ≡ 21)
    × (length (serialize_block test_env.proto last_block) ≡ 21)
unfolding serialize_block block_message header_message transaction_message input_message
    output_message word_proto
sizes = (refl, refl)

-- No file has the empty path.
first_no_file : find [] first_chain.file_system.files ≡ none
unfolding new_chain Writer.store_block serialize_undo_block make_undo_block construct_genesis_block
    rows new_transaction Writer.write_block Writer.append_file Writer.write_undo_block
    Coins.store_block get_transactions serialize_block word_proto coin_message find assign bytes_beq
    Writer.block_path Writer.undo_path
first_no_file = refl

undo_path-nonempty : (n : ℕ) → undo_path n ≢ []
unfolding undo_path
undo_path-nonempty n e = absurd (omega (arith, ap length e))

third_no_file : find [] third_chain.file_system.files ≡ none
third_no_file =
    let st =
      stored test_env spending_block ((first_chain.active_chain_length + 1) % 2 ^ 32)
        second_coin_database.0 first_chain.chain_writer first_chain.file_system
        first_chain.block_info_database spending_in_range (omega arith) spending-Storable in
    aside_find test_env second_chain rival_block rival_in_range rival-Fits second-IsHistory.ready []
      block_path-nonempty
    ∙ st.others [] block_path-nonempty undo_path-nonempty
    ∙ first_no_file

-- The chain after the fork of the rival block took over.
fourth :
    (c : Chain) × (handle_block test_env third_chain third_block ≡ some c)
    × IsHistory test_env c third_block
        (rival_block ∷ construct_genesis_block ∷ [])
        (apply_block test_env second_coins (get_transactions construct_genesis_block))
    × TookOver test_env third_chain (spending_block ∷ construct_genesis_block ∷ []) third_block c
fourth =
    handle_block-overtaken test_env third_chain spending_block (construct_genesis_block ∷ [])
      third_block rival_block (construct_genesis_block ∷ []) second_coins third-IsLonger
      third-IsHistory third-Undoable can_again

abbrev fourth_chain : Chain
fourth_chain = fourth.0

fourth-TookOver :
    TookOver test_env third_chain
      (spending_block ∷ construct_genesis_block ∷ [])
      third_block
      fourth_chain
fourth-TookOver = fourth.3

fourth-IsHistory :
    IsHistory test_env fourth_chain third_block
      (rival_block ∷ construct_genesis_block ∷ [])
      (apply_block test_env second_coins (get_transactions construct_genesis_block))
fourth-IsHistory = fourth.2

fourth_number : fourth_chain.chain_writer.current_block_file_number ≤ 3
fourth_number = omega (
  arith,
  ap (λ w. w.current_block_file_number) fourth-TookOver.writer,
  block_number-write_block test_env third_chain.chain_writer third_chain.file_system
      (serialize_block test_env.proto third_block),
  aside_number test_env second_chain rival_block rival_in_range rival-Fits second-IsHistory.ready,
  second_number,
)

back-Fits : Fits test_env fourth_chain back_block
back-Fits = record {
  may = λ p. refl;
  number = omega (arith, fourth_number);
  small = omega (arith, sizes.0);
}

back_in_range : IsBlock back_block
back_in_range = omega arith

-- The next block of the fork that was replaced is put on it.
abbrev fifth_chain : Chain
fifth_chain = aside test_env fourth_chain back_block back_in_range back-Fits fourth-IsHistory.ready

fifth-IsHistory :
    IsHistory test_env fifth_chain third_block
      (rival_block ∷ construct_genesis_block ∷ [])
      (apply_block test_env second_coins (get_transactions construct_genesis_block))
fifth-IsHistory =
    aside-IsHistory test_env fourth_chain back_block third_block
      (rival_block ∷ construct_genesis_block ∷ []) _ back_in_range back-Fits fourth-IsHistory
      (
        (λ e. absurd (omega (arith, e, back_hash, third_hash_is))),
        (
          (λ e. absurd (omega (arith, e, back_hash, rival_hash))),
          ((λ e. absurd (omega (arith, e, back_hash, genesis_hash))), tt),
        ),
      )

back_height : height_above test_env fourth_chain back_block ≡ 3
back_height =
    ap (λ i. ((look_up test_env fourth_chain i).0.height + 1) % 2 ^ 32) (sym spending_hash)
    ∙ ap (λ n. (n + 1) % 2 ^ 32)
        (height-look_up test_env fourth_chain spending_block 2 fourth-TookOver.kept.0)

fifth-ChainKeeps :
    ChainKeeps test_env fifth_chain (back_block ∷ spending_block ∷ construct_genesis_block ∷ [])
fifth-ChainKeeps = (
  subst (Kept test_env fifth_chain.block_info_database fifth_chain.file_system back_block)
      back_height
      (aside-Kept test_env fourth_chain back_block back_in_range back-Fits fourth-IsHistory.ready),
  aside-KeptAll test_env fourth_chain back_block back_in_range back-Fits fourth-IsHistory.ready
      (spending_block ∷ construct_genesis_block ∷ [])
      (
        (λ e. absurd (omega (arith, e, back_hash, spending_hash))),
        ((λ e. absurd (omega (arith, e, back_hash, genesis_hash))), tt),
      )
      fourth-TookOver.kept,
)

last-Fits : Fits test_env fifth_chain last_block
last-Fits = record {
  may = λ p. refl;
  number = omega (
    arith,
    aside_number test_env fourth_chain back_block back_in_range back-Fits fourth-IsHistory.ready,
    fourth_number,
  );
  small = omega (arith, sizes.1);
}

fifth-IsLonger :
    IsLonger test_env fifth_chain third_block
      (rival_block ∷ construct_genesis_block ∷ [])
      last_block
      back_block
      (spending_block ∷ construct_genesis_block ∷ [])
fifth-IsLonger = record {
  parted = record {
    newer_active = third_block ∷ [];
    newer_side = last_block ∷ back_block ∷ [];
    first_active = rival_block;
    first_side = spending_block;
    ancestor = construct_genesis_block;
    older = [];
    active_is = refl;
    side_is = refl;
    differ = λ e. absurd (omega (arith, e, spending_hash, rival_hash));
  };
  kept = fifth-ChainKeeps;
  linked = (sym back_hash, (sym spending_hash, (sym genesis_hash, tt)));
  even = refl;
  other = λ e. absurd (omega (arith, e, third_hash_is));
  in_range = omega arith;
  fresh = (
    (λ e. absurd (omega (arith, e, last_hash_is, third_hash_is))),
    (
      (λ e. absurd (omega (arith, e, last_hash_is, rival_hash))),
      ((λ e. absurd (omega (arith, e, last_hash_is, genesis_hash))), tt),
    ),
  );
  fresh_side = (
    (λ e. absurd (omega (arith, e, last_hash_is, back_hash))),
    (
      (λ e. absurd (omega (arith, e, last_hash_is, spending_hash))),
      ((λ e. absurd (omega (arith, e, last_hash_is, genesis_hash))), tt),
    ),
  );
  fits = last-Fits;
  room = omega arith;
}

handle_block-NoUndo_example : handle_block test_env fifth_chain last_block ≡ none
handle_block-NoUndo_example =
    handle_block-NoUndo test_env fifth_chain third_block
      (rival_block ∷ construct_genesis_block ∷ []) last_block back_block
      (spending_block ∷ construct_genesis_block ∷ []) fifth-IsLonger
      (IsHistory-IsSpine test_env fifth-IsHistory)
      (aside-NoUndo test_env fourth_chain back_block third_block back_in_range back-Fits
        fourth-IsHistory.ready (λ e. absurd (omega (arith, e, back_hash, third_hash_is)))
        (TookOver-NoUndo test_env third_chain fourth_chain
          (spending_block ∷ construct_genesis_block ∷ []) third_block fourth-TookOver
          third_no_file))
