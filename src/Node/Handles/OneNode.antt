-- ===== src/Node/Handles/OneNode.antt =====
-- That one node explains the calls that node/cli/src/service.rs makes for a full node.
use ipci_blockchain.Node.Handles.{Handles}
use ipci_blockchain.Node.Handles.Framework.{Framework}
use ipci_blockchain.Node.Handles.Wired.{Node}
