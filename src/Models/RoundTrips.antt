-- ===== src/Models/RoundTrips.antt =====
-- src/models.rs: the stored names against their parsers.
use mathlib.Core.Bool.{true, false≢true}
use solana_whale_intelligenc.Prelude.{◌≡◌, refl, some, String}
use solana_whale_intelligenc.Prelude.Strings.{trim, to_ascii_lowercase}
use solana_whale_intelligenc.Models.{
  ChainKind, chain_str, parse_chain, Commitment, commitment_str, parse_commitment, WalletLabelKind,
  label_str, parse_label, Disposition, disposition_str, parse_disposition, LifecycleState,
  lifecycle_str, parse_lifecycle, NarrativeCategory, category_str, parse_category, RadarStage,
  stage_str, parse_stage, entry_supported,
}

-- A text that is the stored name of a chain, up to case and to blanks around it, parses to
-- that chain.
pub parse_chain-chain_str :
    (k : ChainKind) (v : String)
    → to_ascii_lowercase (trim v) ≡ chain_str k
    → parse_chain v ≡ some k
unfolding parse_chain chain_str
parse_chain-chain_str ChainKind.solana v h = rw (parse_chain, h) refl
parse_chain-chain_str ChainKind.robinhood v h = rw (parse_chain, h) refl

-- A text that is the stored name of a commitment, up to case and to blanks around it, parses to
-- that commitment.
pub parse_commitment-commitment_str :
    (k : Commitment) (v : String)
    → to_ascii_lowercase (trim v) ≡ commitment_str k
    → parse_commitment v ≡ some k
unfolding parse_commitment commitment_str
parse_commitment-commitment_str Commitment.processed v h = rw (parse_commitment, h) refl
parse_commitment-commitment_str Commitment.confirmed v h = rw (parse_commitment, h) refl
parse_commitment-commitment_str Commitment.finalized v h = rw (parse_commitment, h) refl

-- A text that is the stored name of a label, up to case and to blanks around it, parses to
-- that label.
pub parse_label-label_str :
    (k : WalletLabelKind) (v : String)
    → to_ascii_lowercase (trim v) ≡ label_str k
    → parse_label v ≡ some k
unfolding parse_label label_str
parse_label-label_str WalletLabelKind.smart_degen v h = rw (parse_label, h) refl
parse_label-label_str WalletLabelKind.sniper v h = rw (parse_label, h) refl
parse_label-label_str WalletLabelKind.bundler v h = rw (parse_label, h) refl
parse_label-label_str WalletLabelKind.rat_trader v h = rw (parse_label, h) refl
parse_label-label_str WalletLabelKind.dex_bot v h = rw (parse_label, h) refl
parse_label-label_str WalletLabelKind.mev_bot v h = rw (parse_label, h) refl
parse_label-label_str WalletLabelKind.fresh_wallet v h = rw (parse_label, h) refl
parse_label-label_str WalletLabelKind.dev v h = rw (parse_label, h) refl
parse_label-label_str WalletLabelKind.insider v h = rw (parse_label, h) refl
parse_label-label_str WalletLabelKind.arbitrage v h = rw (parse_label, h) refl
parse_label-label_str WalletLabelKind.copy_trader v h = rw (parse_label, h) refl
parse_label-label_str WalletLabelKind.market_maker v h = rw (parse_label, h) refl
parse_label-label_str WalletLabelKind.exchange v h = rw (parse_label, h) refl
parse_label-label_str WalletLabelKind.bridge v h = rw (parse_label, h) refl
parse_label-label_str WalletLabelKind.kuiper_exchange v h = rw (parse_label, h) refl
parse_label-label_str WalletLabelKind.project v h = rw (parse_label, h) refl

-- A text that is the stored name of a disposition, up to case and to blanks around it, parses to
-- that disposition.
pub parse_disposition-disposition_str :
    (k : Disposition) (v : String)
    → to_ascii_lowercase (trim v) ≡ disposition_str k
    → parse_disposition v ≡ some k
unfolding parse_disposition disposition_str
parse_disposition-disposition_str Disposition.score v h = rw (parse_disposition, h) refl
parse_disposition-disposition_str Disposition.watch v h = rw (parse_disposition, h) refl
parse_disposition-disposition_str Disposition.flow_only v h = rw (parse_disposition, h) refl
parse_disposition-disposition_str Disposition.skip v h = rw (parse_disposition, h) refl

-- A text that is the stored name of a lifecycle state with which an entry is supported, up to case and to blanks around it, parses to
-- that lifecycle state.
pub parse_lifecycle-lifecycle_str :
    (k : LifecycleState) (v : String)
    → entry_supported k ≡ true
    → to_ascii_lowercase (trim v) ≡ lifecycle_str k
    → parse_lifecycle v ≡ some k
unfolding parse_lifecycle lifecycle_str entry_supported
parse_lifecycle-lifecycle_str LifecycleState.new_creation v s h = rw (parse_lifecycle, h) refl
parse_lifecycle-lifecycle_str LifecycleState.bonding_curve v s h = rw (parse_lifecycle, h) refl
parse_lifecycle-lifecycle_str LifecycleState.near_graduation v s h = rw (parse_lifecycle, h) refl
parse_lifecycle-lifecycle_str LifecycleState.graduated v s h = rw (parse_lifecycle, h) refl
parse_lifecycle-lifecycle_str LifecycleState.post_migration v s h = rw (parse_lifecycle, h) refl
parse_lifecycle-lifecycle_str LifecycleState.unsupported v s h = absurd (false≢true s)

-- A text that is the stored name of a narrative category, up to case and to blanks around it, parses to
-- that narrative category.
pub parse_category-category_str :
    (k : NarrativeCategory) (v : String)
    → to_ascii_lowercase (trim v) ≡ category_str k
    → parse_category v ≡ some k
unfolding parse_category category_str
parse_category-category_str NarrativeCategory.ai v h = rw (parse_category, h) refl
parse_category-category_str NarrativeCategory.defi v h = rw (parse_category, h) refl
parse_category-category_str NarrativeCategory.dep_in v h = rw (parse_category, h) refl
parse_category-category_str NarrativeCategory.meme v h = rw (parse_category, h) refl
parse_category-category_str NarrativeCategory.celebrity v h = rw (parse_category, h) refl
parse_category-category_str NarrativeCategory.political v h = rw (parse_category, h) refl
parse_category-category_str NarrativeCategory.gaming v h = rw (parse_category, h) refl
parse_category-category_str NarrativeCategory.rwa v h = rw (parse_category, h) refl
parse_category-category_str NarrativeCategory.solana_ecosystem v h = rw (parse_category, h) refl
parse_category-category_str NarrativeCategory.launchpad v h = rw (parse_category, h) refl
parse_category-category_str NarrativeCategory.community_takeover v h = rw (parse_category, h) refl
parse_category-category_str NarrativeCategory.unknown v h = rw (parse_category, h) refl

-- A text that is the stored name of a radar stage, up to case and to blanks around it, parses to
-- that radar stage.
pub parse_stage-stage_str :
    (k : RadarStage) (v : String)
    → to_ascii_lowercase (trim v) ≡ stage_str k
    → parse_stage v ≡ some k
unfolding parse_stage stage_str
parse_stage-stage_str RadarStage.funded v h = rw (parse_stage, h) refl
parse_stage-stage_str RadarStage.preparation v h = rw (parse_stage, h) refl
parse_stage-stage_str RadarStage.deployed v h = rw (parse_stage, h) refl
parse_stage-stage_str RadarStage.dismissed v h = rw (parse_stage, h) refl
