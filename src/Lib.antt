-- ===== src/Lib.antt =====
-- The voxter desktop client (client/src): its state, its calls of the server, its gateway
-- connection and its voice calls, as a model with proofs.
--
-- The client is a Qt program. The services (client/src/services) talk to the server, the gateway,
-- LiveKit and the disk; AppStore (client/src/store) holds what the screens show; the view models
-- (client/src/viewmodels) send calls, and their callbacks and the gateway's events change the
-- store. Everything runs on one event loop, so the model is a list of steps: each is one slot,
-- callback or method that runs to its end.
--
-- Common: numbers, texts and lists that the other modules share.
-- Variant: QVariant and QJsonValue. A map is a list of fields in the order of their keys, which
-- `insert` keeps. A number is carried as its text, since the client computes with none of them.
-- Store: store/AppStore. A setter of the model does what the method does, and adds the change
-- signals to `emitted`. Store.Messages is upsertMessage and removeMessage, Store.Participants the
-- lists of the voice channels.
-- Api: services/ApiClient. ApiCall has one constructor for each method that sends a request,
-- `request_of` is what the method sends, of the parts in Api.Requests, Api.Retry the life of a
-- request with its retries, and Api.Errors is parseError. The network's replies, JSON and
-- QString::toLower are parameters. A request makes at most three attempts, so fuel of three is
-- enough for it.
-- Gateway: services/GatewayClient. The slots that the constructor connects are `on_…`, and
-- `handle` is one event of the socket or of the reconnect timer. What the socket is asked for is
-- in `commands`, where the URL is kept as the base URL and the token that Gateway.Url makes it of;
-- Gateway.Messages is what a text of the socket says. QUrl and the JSON parser are parameters.
-- App: app/Application with all the view models. App.Url is how it finds the server's URL, App the
-- objects that are shared and the slots, and App.Run one step of the whole client and any number of
-- them. Each view model runs on the shared objects as they are then, and what it makes of them is
-- what the next one finds. App.Start follows a sign-in, App.Call a sign-out during a call, and
-- App.Place which conversation is open, App.Late answers that come too late, and App.Shapes what the
-- messages are made of.
-- Profile: viewmodels/ProfileViewModel.
-- Auth: viewmodels/AuthViewModel, with the tokens of the API client and on disk, and the gateway.
-- Chat: viewmodels/ChatViewModel, with the slot of app/Application that loads a channel when the
-- current channel changes; Chat.Events is what the gateway reports, and Chat.Relevance says what
-- such an event is about.
-- Guild: viewmodels/GuildViewModel, with the gateway, which it tells what to subscribe to, and
-- Guild.Events its handler of the gateway's events.
-- LineFilter: the class StdFdLineFilter of client/src/main.cpp. LineFilter is what it does with the
-- bytes it reads, LineFilter.Descriptors its start and stop, and LineFilter.Pipe the program's writes
-- and the thread's reads in any order. The C runtime's descriptors and its pipe are parameters with
-- laws; fuel above the number of bytes in the pipe is enough for the loop. Stopping, Starting,
-- Bracket and Pair carry the proof in Main.
-- Main: the function main of client/src/main.cpp, the filters around a run of App.
-- Storage: services/SecureStorage, with Base64, UTF-8 and the machine's key as parameters.
-- Voice: services/NativeVoiceEngine and viewmodels/VoiceViewModel in one state, because the
-- engine's signals run the view model's slots at once. Voice.Media is the engine's capture,
-- playback and track, Voice.Bridge what the two say to each other, Voice.Fetch the loading of
-- participants (Voice.Fetch.Merging: refreshes that meet), Voice.Session joining and leaving,
-- Voice.Events the gateway's events, Voice.Devices the devices and saved settings,
-- Voice.Connection what LiveKit reports, Voice.Boot the constructors, and Voice.Run one step and any number of them. `Host` is what Qt, the devices
-- and LiveKit would answer, and every step may change it. Voice.Core, Voice.Machine,
-- Voice.Privacy, Voice.Effects, Voice.Sending, Voice.Replies and Voice.Reach carry the proof in
-- Voice.Secrecy; Voice.Calls, Voice.Untouched, Voice.Answered and Voice.Exclusion the one in
-- Voice.Traffic; and Voice.Place shows for App what the voice part leaves alone.
-- Voice.Capture is onInputReadyRead: the bytes of the microphone, the frames cut of them and the
-- samples after the gain; the product of two doubles is a parameter, and a double is a fraction.
-- Voice.Refused is the 900 ms timer behind a refused call for participants, and Voice.Abandoned the
-- call that takes the user back out of a channel for which the server gave no token.
-- Voice.Resolve is how the id that the user chose becomes a device again.
-- Voice.Playback is the thread of startRemotePlayback, round by round, where a round holds what
-- the thread would read in it.
-- Examples: concrete inputs.
--
-- Not modelled: the signals of the view models, which only the screens read; tests for services
-- that are missing, which the constructor of Application sets before anything else runs; the locks
-- and the joining of threads, since the threads hand their results to the event loop; the start of
-- the playback threads together with the frames they read; the QML screens, the server and LiveKit. The numbers of attempts and of
-- milliseconds have no upper bound, and an audio source that a second start of the capture would
-- leave behind is not counted.
pub mod Api
pub mod App
pub mod Auth
pub mod Chat
pub mod Common
pub mod Examples
pub mod Gateway
pub mod Guild
pub mod LineFilter
pub mod Main
pub mod Profile
pub mod Storage
pub mod Store
pub mod Variant
pub mod Voice
