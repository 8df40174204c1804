-- ===== src/Tests.antt =====
-- Concrete runs of the model, and the theorems at concrete inputs.
mod Directory
mod Protocol
mod Loop
mod Json
mod JsonTexts
mod Containers
mod Programs
mod Shell
mod Students
mod Pings
mod Peers
mod NodeList
mod FileTransfer
mod Sockets
mod Start
