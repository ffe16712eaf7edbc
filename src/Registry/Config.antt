-- ===== src/Registry/Config.antt =====
-- apps/web/src/lib/solana/solanaConfig.ts: the cluster, its RPC URL, the program id and explorer
-- links, from NEXT_PUBLIC_SOLANA_CLUSTER, …_RPC_URL and NEXT_PUBLIC_SJ_REGISTRY_PROGRAM_ID.
use sovereign_jedi.Prelude.{
  Option, none, some, [], ◌∷◌, ◌++◌, Text, text, text_eq, is_empty, if◌then◌else◌, Outcome, err,
  or_throw,
}
use sovereign_jedi.Platform.{Bytes}

pub data SolanaCluster : Type 0 where
  localnet devnet mainnet_beta : SolanaCluster

unfoldable pub cluster_text : SolanaCluster → Text
cluster_text localnet = text "localnet"
cluster_text devnet = text "devnet"
cluster_text mainnet_beta = text "mainnet-beta"

-- Nothing, an empty text and an unknown name stand for localnet.
unfoldable pub get_solana_cluster : Option Text → SolanaCluster
get_solana_cluster none = localnet
get_solana_cluster (some name) =
    if text_eq name (text "devnet")
    then devnet
    else if text_eq name (text "mainnet-beta")
    then mainnet_beta
    else localnet

unfoldable pub cluster_url : SolanaCluster → Text
cluster_url localnet = text "http://127.0.0.1:8899"
cluster_url devnet = text "https://api.devnet.solana.com"
cluster_url mainnet_beta = text "https://api.mainnet-beta.solana.com"

unfoldable pub get_solana_rpc_url : Option Text → Option Text → Text
unfolding get_solana_cluster cluster_url
get_solana_rpc_url cluster none = cluster_url (get_solana_cluster cluster)
get_solana_rpc_url cluster (some url) =
    if is_empty url then cluster_url (get_solana_cluster cluster) else url

pub data ConfigError : Type 0 where
  program_id_required invalid_program_id : ConfigError

-- `new PublicKey(envId)`, `none` where it throws
unfoldable pub get_registry_program_id :
    (Text → Option Bytes) → Option Text → Outcome ConfigError Bytes
get_registry_program_id public_key none = err program_id_required
get_registry_program_id public_key (some id) =
    if is_empty id then err program_id_required else or_throw (public_key id) invalid_program_id

pub data ExplorerType : Type 0 where
  tx address : ExplorerType

abbrev type_text : ExplorerType → Text
type_text tx = text "tx"
type_text address = text "address"

abbrev explorer_suffix : SolanaCluster → Text
explorer_suffix localnet = text "?cluster=custom&customUrl=http%3A%2F%2Flocalhost%3A8899"
explorer_suffix devnet = text "?cluster=devnet"
explorer_suffix mainnet_beta = []

unfoldable pub get_explorer_url : Option Text → Text → ExplorerType → Text
unfolding get_solana_cluster
get_explorer_url cluster id kind =
    text "https://explorer.solana.com/"
    ++ (type_text kind ++ (47 ∷ (id ++ explorer_suffix (get_solana_cluster cluster))))
